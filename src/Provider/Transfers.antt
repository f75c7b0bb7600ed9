-- ===== src/Provider/Transfers.antt =====
-- infrastructure/starkbank_client.py: invoices and transfers.
use starkbank_backend_challe.Base.{
  true, false, Option, none, some, List, [], ◌∷◌, String, ◌==◌, if◌then◌else◌,
}
use starkbank_backend_challe.Domain.Errors.{Result, ok, err, provider, unknown_outcome, permanent}
use starkbank_backend_challe.Domain.Models.{
  InvoiceDraft, ProviderInvoice, TransferCommand, ProviderTransfer,
}
use starkbank_backend_challe.Service.{Call}
use starkbank_backend_challe.Provider.Sdk.{
  validation_error, is_input_errors, Answer, answered, failed, Items, end, broken, item,
  InvoiceRequest, TransferRequest, SdkTransfer, StarkBankClient, raise_provider, require_live,
}

-- `_provider_transfer`
unfoldable pub provider_transfer : SdkTransfer → ProviderTransfer
provider_transfer transfer = record {
  id = transfer.id;
  external_id = transfer.external_id;
  status = transfer.status;
}

unfoldable pub transfer_request : TransferCommand → TransferRequest
transfer_request command = record {
  amount = command.amount;
  name = command.recipient.name;
  tax_id = command.recipient.tax_id;
  bank_code = command.recipient.bank_code;
  branch_code = command.recipient.branch_code;
  account_number = command.recipient.account_number;
  account_type = command.recipient.account_type;
  external_id = command.external_id;
  tags = command.tag ∷ [];
  description = "Stark Bank backend trial invoice credit";
}

unfoldable pub invoice_request : InvoiceDraft → InvoiceRequest
invoice_request draft = record {
  amount = draft.amount;
  tax_id = draft.payer_tax_id;
  name = draft.payer_name;
  tags = draft.tag ∷ [];
}

module _ {W Bytes Object : Type 0} (client : StarkBankClient W Bytes Object) where
  -- What `create_invoice` makes of the SDK's answer.
  unfoldable pub created_invoice : InvoiceDraft → Answer (List Object) → Result ProviderInvoice
  created_invoice draft (failed error) = raise_provider error "create_invoice" true
  created_invoice draft (answered []) = err (provider (unknown_outcome "create_invoice_empty"))
  created_invoice draft (answered (object ∷ _)) = elim (client.sdk.sdk_invoice object) [
    | none ↦ raise_provider validation_error "create_invoice" true
    | some id ↦ ok (record { id = id; tag = draft.tag })
  ]

  unfoldable pub create_invoice : InvoiceDraft → Call W ProviderInvoice
  create_invoice draft = require_live client "create_invoice" (λ w.
      let (answer, w') = client.sdk.invoice_create (invoice_request draft ∷ []) w in
      (created_invoice draft answer, w'))

  -- What `find_invoice` makes of the first of the answer.
  unfoldable pub found_invoice : String → Items Object → Result (Option ProviderInvoice)
  found_invoice tag end = ok none
  found_invoice tag (broken error) = raise_provider error "find_invoice" false
  found_invoice tag (item object _) = elim (client.sdk.sdk_invoice object) [
    | none ↦ raise_provider validation_error "find_invoice" false
    | some id ↦ ok (some (record { id = id; tag = tag }))
  ]

  unfoldable pub find_invoice : String → Call W (Option ProviderInvoice)
  find_invoice tag w =
      let (items, w') = client.sdk.invoice_query 1 (tag ∷ []) w in (found_invoice tag items, w')

  -- The loop of `_find_transfer`.
  unfoldable pub find_in : String → Items Object → Result (Option ProviderTransfer)
  find_in external_id end = ok none
  find_in external_id (broken error) = raise_provider error "find_transfer" false
  find_in external_id (item object rest) =
      let later = find_in external_id rest in
      elim (client.sdk.sdk_transfer object) [
        | none ↦ raise_provider validation_error "find_transfer" false
        | some transfer ↦
            if transfer.external_id == external_id
            then ok (some (provider_transfer transfer))
            else later
      ]

  -- `_find_transfer` and `find_transfer`
  unfoldable pub find_transfer : TransferCommand → Call W (Option ProviderTransfer)
  find_transfer command w =
      let (items, w') = client.sdk.transfer_query 10 (command.tag ∷ []) w in
      (find_in command.external_id items, w')

  -- After the provider refused the input: another call may have created the transfer.
  unfoldable pub refused_transfer :
      TransferCommand → Result (Option ProviderTransfer) → Result ProviderTransfer
  refused_transfer command (ok (some transfer)) = ok transfer
  refused_transfer command (ok none) = err (provider (permanent "create_transfer"))
  refused_transfer command (err error) = err error

  unfoldable pub created_transfer : TransferCommand → Answer (List Object) → Call W ProviderTransfer
  created_transfer command (answered []) w =
      (err (provider (unknown_outcome "create_transfer_empty")), w)
  created_transfer command (answered (object ∷ _)) w = elim (client.sdk.sdk_transfer object) [
    | none ↦ (raise_provider validation_error "create_transfer" true, w)
    | some transfer ↦ (ok (provider_transfer transfer), w)
  ]
  created_transfer command (failed error) w =
      let (found, w') = find_transfer command w in
      if is_input_errors error
      then (refused_transfer command found, w')
      else (raise_provider error "create_transfer" true, w)

  unfoldable pub create_transfer : TransferCommand → Call W ProviderTransfer
  create_transfer command w =
      let (answer, w') = client.sdk.transfer_create (transfer_request command ∷ []) w in
      created_transfer command answer w'

  -- What follows from the first lookup.
  unfoldable pub ensure_after :
      TransferCommand → Result (Option ProviderTransfer) → Call W ProviderTransfer
  ensure_after command (err error) w = (err error, w)
  ensure_after command (ok (some existing)) w = (ok existing, w)
  ensure_after command (ok none) w = create_transfer command w

  unfoldable pub ensure_transfer : TransferCommand → Call W ProviderTransfer
  ensure_transfer command =
      require_live client "ensure_transfer"
        (λ w. let (existing, w') = find_transfer command w in ensure_after command existing w')
