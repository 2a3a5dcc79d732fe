-- ===== src/Receipt.antt =====
-- apps/api/domain/receipt.py and apps/api/domain/receipt_signer.py: the receipt of a transaction, and
-- its signing. The library `cryptography`, base64, the parsing of hexadecimal bytes and the SHA-256
-- of the canonical JSON object of a receipt are the parameters in `Crypto`. Message texts are not
-- modelled, nor are the key manager's conversions of private keys.
pub mod Verifier
pub mod Genuine
pub mod Verified
pub mod RoundTrip
mod Tests
use mandate_gateway.Base.{
  ◌==◌, String, ◌≡◌, Bool, true, false, not, ◌&&◌, str_eq, Option, none, some, get_or,
  if◌then◌else◌, Result, ok, err,
}
use mandate_gateway.Int.{ℤ, pos, ltb_ℤ}
use mandate_gateway.Text.{is_empty, text_length, all_hex}
use mandate_gateway.Clock.{Time, time_or_now}
use mandate_gateway.Types.{Currency, PolicyDecision}

-- what the canonical hash of a receipt is computed from
pub record ReceiptPayload : Type 0 where
  pub receipt_version : String
  pub receipt_id : String
  pub transaction_id : String
  pub mandate_id : String
  pub merchant_id : String
  pub policy_version : ℤ
  pub cart_hash : String
  pub amount_paise : ℤ
  pub currency : Currency
  pub decision : PolicyDecision
  pub execution_tool : Option String
  pub execution_reference : Option String
  pub authorized_at : Time
  pub audit_hash : Option String

pub record ActionReceipt : Type 0 where
  pub payload : ReceiptPayload
  pub executed_at : Option Time
  pub created_at : Time
  pub canonical_payload_hash : String
  pub signature : Option String

pub data ReceiptError : Type 0 where
  validation signing_failed : ReceiptError

-- The operations of the libraries; `none` stands for an exception.
pub record Crypto : Type 1 where
  pub PrivateKey : Type 0
  pub PublicKey : Type 0
  pub Bytes : Type 0
  pub public_key : PrivateKey → PublicKey
  pub sign : PrivateKey → String → Option Bytes
  pub check_signature : PublicKey → Bytes → String → Bool
  pub b64encode : Bytes → String
  pub b64decode : String → Option Bytes
  pub fromhex : String → Option Bytes
  pub from_public_bytes : Bytes → Option PublicKey
  pub digest : ReceiptPayload → String

-- What their documentation says: base64 decodes what it encoded, a signature checks under the public
-- key of the key that made it and is not empty.
pub record IsSound (c : Crypto) : Type 0 where
  pub b64_round_trip : (b : c.Bytes) → c.b64decode (c.b64encode b) ≡ some b
  pub signature_checks :
      (k : c.PrivateKey) (message : String) (s : c.Bytes)
      → c.sign k message ≡ some s
      → c.check_signature (c.public_key k) s message ≡ true
  pub signature_nonempty :
      (k : c.PrivateKey) (message : String) (s : c.Bytes)
      → c.sign k message ≡ some s
      → is_empty (c.b64encode s) ≡ false

-- the arguments of `sign_receipt`
pub record SignRequest : Type 0 where
  pub transaction_id : String
  pub mandate_id : String
  pub merchant_id : String
  pub policy_version : ℤ
  pub cart_hash : String
  pub amount_paise : ℤ
  pub currency : Currency
  pub decision : PolicyDecision
  pub execution_tool : Option String
  pub execution_reference : Option String
  pub audit_hash : Option String
  pub authorized_at : Option Time
  pub executed_at : Option Time
  pub receipt_id : Option String

-- the bounds of the fields
unfoldable pub in_bounds : ReceiptPayload → Bool
in_bounds p =
    not (is_empty p.transaction_id)
    && not (is_empty p.mandate_id)
    && not (is_empty p.merchant_id)
    && not (ltb_ℤ p.policy_version (pos 1))
    && text_length p.cart_hash == 64
    && not (ltb_ℤ p.amount_paise (pos 0))

module _ (c : Crypto) where
  -- the constructor, and `model_post_init`, which fills in an empty hash
  unfoldable pub action_receipt : ActionReceipt → Result ReceiptError ActionReceipt
  unfolding in_bounds
  action_receipt r =
      if not (in_bounds r.payload)
      then err ReceiptError.validation
      else if is_empty r.canonical_payload_hash
      then ok (record r { canonical_payload_hash = c.digest r.payload })
      else ok r

  unfoldable pub verify_canonical_hash : ActionReceipt → Bool
  verify_canonical_hash r = str_eq r.canonical_payload_hash (c.digest r.payload)

  -- the receipt that a request asks for, without its hash and its signature; `uuid` is the
  -- identifier that the constructor makes if none is given
  unfoldable pub unsigned : String → SignRequest → Time → ActionReceipt
  unsigned uuid q now = record {
    payload = record {
      receipt_version = "1.0";
      receipt_id = get_or q.receipt_id uuid;
      transaction_id = q.transaction_id;
      mandate_id = q.mandate_id;
      merchant_id = q.merchant_id;
      policy_version = q.policy_version;
      cart_hash = q.cart_hash;
      amount_paise = q.amount_paise;
      currency = q.currency;
      decision = q.decision;
      execution_tool = q.execution_tool;
      execution_reference = q.execution_reference;
      authorized_at = time_or_now q.authorized_at now;
      audit_hash = q.audit_hash;
    };
    executed_at = q.executed_at;
    created_at = now;
    canonical_payload_hash = "";
    signature = none;
  }

  -- the signature of a receipt that has its hash
  unfoldable pub signed : c.PrivateKey → ActionReceipt → Result ReceiptError ActionReceipt
  unfolding action_receipt
  signed key r = elim (c.sign key r.canonical_payload_hash) [
    | none ↦ err ReceiptError.signing_failed
    | some s ↦ action_receipt (record r { signature = some (c.b64encode s) })
  ]

  unfoldable pub sign_receipt :
      c.PrivateKey → String → SignRequest → Time → Result ReceiptError ActionReceipt
  unfolding unsigned signed
  sign_receipt key uuid q now = elim (action_receipt (unsigned uuid q now)) [
    | err x ↦ err x
    | ok r ↦ signed key r
  ]

  -- a public key as it is given to the verifier
  pub data KeyInput : Type 0 where
    object : c.PublicKey → KeyInput
    raw : c.Bytes → KeyInput
    text : String → KeyInput

  unfoldable pub load_public_key_hex : String → Option c.PublicKey
  load_public_key_hex s = elim (c.fromhex s) [ none ↦ none | some b ↦ c.from_public_bytes b ]

  unfoldable pub load_public_key_base64 : String → Option c.PublicKey
  load_public_key_base64 s = elim (c.b64decode s) [ none ↦ none | some b ↦ c.from_public_bytes b ]

  -- `_load_public_key_obj`
  unfoldable pub load_public_key_obj : KeyInput → Option c.PublicKey
  unfolding load_public_key_hex load_public_key_base64
  load_public_key_obj (KeyInput.object k) = some k
  load_public_key_obj (KeyInput.raw b) = c.from_public_bytes b
  load_public_key_obj (KeyInput.text s) =
      if text_length s == 64 && all_hex s then load_public_key_hex s else load_public_key_base64 s
