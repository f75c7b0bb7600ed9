-- ===== src/Domain/Money.antt =====
-- domain/money.py: the amount that a transfer sends.
use starkbank_backend_challe.Base.{◌≡◌, ◌↔◌, ◌||◌, arith, if◌then◌else◌}
use starkbank_backend_challe.Base.Int.{ℤ, pos, ◌+ℤ◌, ◌-ℤ◌, ◌≤ℤ◌, ◌<ℤ◌, leb_ℤ, ltb_ℤ}
use starkbank_backend_challe.Domain.Errors.{Result, ok, err, invalid_amount}

unfoldable pub calculate_net_amount : ℤ → ℤ → Result ℤ
calculate_net_amount amount fee =
    if leb_ℤ amount (pos 0) || ltb_ℤ fee (pos 0) || leb_ℤ amount fee
    then err (invalid_amount amount fee)
    else ok (amount -ℤ fee)

-- A net amount exists exactly when the credited amount is positive and the fee is not negative and
-- less than the amount; it is then the positive number that makes up the amount with the fee.
pub calculate_net_amount_iff :
    (amount fee net : ℤ)
    → (calculate_net_amount amount fee ≡ ok net)
      ↔ ((pos 0 <ℤ amount) × (pos 0 ≤ℤ fee) × (pos 0 <ℤ net) × (net +ℤ fee ≡ amount))
unfolding calculate_net_amount ◌+ℤ◌ ◌-ℤ◌
calculate_net_amount_iff amount fee net = (λ h. ground arith, λ h. ground arith)
