-- ===== src/Domain/Transfer.antt =====
-- domain/transfer.py and domain/constants.py: the command for one credited invoice.
use starkbank_backend_challe.Base.{String, ◌<>◌}
use starkbank_backend_challe.Base.Int.{ℤ}
use starkbank_backend_challe.Domain.Models.{Recipient, TransferCommand}

abbrev pub stark_bank_recipient : Recipient
stark_bank_recipient = record {
  bank_code = "20018183";
  branch_code = "0001";
  account_number = "6341320293482496";
  name = "Stark Bank S.A.";
  tax_id = "20.018.183/0001-80";
  account_type = "payment";
}

unfoldable pub build_transfer_command : String → ℤ → TransferCommand
build_transfer_command invoice_id amount = record {
  invoice_id = invoice_id;
  amount = amount;
  external_id = "trial-transfer-" <> invoice_id;
  tag = "trial-transfer:" <> invoice_id;
  recipient = stark_bank_recipient;
}
