-- ===== src/State/Account.antt =====
-- state/account.go: an account and its binary form.
pub mod RoundTrip
use dsn.Prelude.{ℕ, ◌+◌, ◌^◌, ◌<◌, ◌≡◌, [], ◌∷◌, wrap64}
use dsn.Error.{Result, ok, ◌>>=◌ as bind}
use dsn.Bytes.{Bytes, Reader, read_full, read_uint, write_uint, write_padded, writes}
use dsn.Bytes.Do.{◌>>=◌, pure}
use dsn.Types.Amount.{Amount, IsAmount, add, sub, marshal, unmarshal}

pub record Account : Type 0 where
  pub address : ℕ
  pub balance : Amount
  pub nonce : ℕ
  pub storage_root : ℕ
  pub code_hash : ℕ
  pub permissions : ℕ
  pub public_key : ℕ

unfoldable pub new_account : ℕ → ℕ → Account
new_account addr public_key = record {
  address = addr;
  balance = 0;
  nonce = 0;
  storage_root = 0;
  code_hash = 0;
  permissions = 0;
  public_key = public_key;
}

unfoldable pub add_balance : Amount → Account → Result Account
add_balance amount a = bind (add a.balance amount) (λ b. ok (record a { balance = b }))

unfoldable pub sub_balance : Amount → Account → Result Account
sub_balance amount a = bind (sub a.balance amount) (λ b. ok (record a { balance = b }))

unfoldable pub increment_nonce : Account → Account
increment_nonce a = record a { nonce = wrap64 (a.nonce + 1) }

unfoldable pub encode_account : Account → Result Bytes
encode_account a = writes (
    write_uint 20 a.address
    ∷ write_padded 16 (marshal a.balance)
    ∷ write_uint 8 a.nonce
    ∷ write_uint 32 a.storage_root
    ∷ write_uint 32 a.code_hash
    ∷ write_uint 4 a.permissions
    ∷ write_uint 32 a.public_key
    ∷ [])

-- ReadFull into the sixteen bytes, then UnmarshalBinary.
unfoldable pub read_balance : Reader Amount
read_balance bs = bind (read_full 16 bs) (λ (buf, rest). bind (unmarshal buf) (λ b. ok (b, rest)))

unfoldable pub decode_account : Reader Account
decode_account = do
  address ← read_uint 20
  balance ← read_balance
  nonce ← read_uint 8
  storage_root ← read_uint 32
  code_hash ← read_uint 32
  permissions ← read_uint 4
  public_key ← read_uint 32
  pure (record {
    address = address;
    balance = balance;
    nonce = nonce;
    storage_root = storage_root;
    code_hash = code_hash;
    permissions = permissions;
    public_key = public_key;
  })

-- The fields fit their Go types.
pub record IsSizedAccount (a : Account) : Type 0 where
  pub address : a.address < 2 ^ 160
  pub balance : IsAmount a.balance
  pub nonce : a.nonce < 2 ^ 64
  pub storage_root : a.storage_root < 2 ^ 256
  pub code_hash : a.code_hash < 2 ^ 256
  pub permissions : a.permissions < 2 ^ 32
  pub public_key : a.public_key < 2 ^ 256
