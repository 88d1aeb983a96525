-- ===== src/State/Account/RoundTrip.antt =====
-- Account.Encode succeeds on every account within its types' bounds, and Decode inverts it.
use dsn.Prelude.{◌≡◌, ◌++◌, arith}
use dsn.Error.{ok}
use dsn.Bytes.{Bytes, write_padded}
use dsn.Bytes.Do.{Inverts, Inverts-cons, Inverts-nil, Inverts-ok}
use dsn.Bytes.RoundTrip.{Inverts-uint, padded_lem, read_full_exact}
use dsn.Types.Amount.{Amount, IsAmount, marshal, unmarshal}
use dsn.State.Account.{Account, IsSizedAccount, encode_account, decode_account, read_balance}

pub Inverts-balance :
    (b : Amount) → IsAmount b → Inverts (write_padded 16 (marshal b)) read_balance b
unfolding read_balance marshal unmarshal
Inverts-balance b h =
    let (bs, written, len, value) = padded_lem 16 b h in
    rw written (Inverts-ok bs λ rest. ground (arith, len, value, read_full_exact 16 bs rest len))

-- An account whose fields fit their types is decoded from its encoding where that succeeds,
-- whatever follows.
decode_account-encode_account :
    (a : Account) (bs rest : Bytes)
    → IsSizedAccount a
    → encode_account a ≡ ok bs
    → decode_account (bs ++ rest) ≡ ok (a, rest)
unfolding encode_account decode_account
decode_account-encode_account a bs rest z =
    (Inverts-cons _ _ (Inverts-uint 20 a.address z.address) (
        Inverts-cons _ _ (Inverts-balance a.balance z.balance) (
          Inverts-cons _ _ (Inverts-uint 8 a.nonce z.nonce) (
            Inverts-cons _ _ (Inverts-uint 32 a.storage_root z.storage_root) (
              Inverts-cons _ _ (Inverts-uint 32 a.code_hash z.code_hash) (
                Inverts-cons _ _ (Inverts-uint 4 a.permissions z.permissions) (
                  Inverts-cons _ _ (Inverts-uint 32 a.public_key z.public_key)
                    (Inverts-nil a)))))))).at
      bs rest
