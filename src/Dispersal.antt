-- ===== src/Dispersal.antt =====
-- dumbomvba/core: dispersing a value in stripes and recasting it. Threshold signatures, the hash and
-- zfec are parameters.
pub mod Disperse
pub mod Recast
use dumbo_ucy.Shared.{ℕ, Bool, List, ◌+◌, ◌-◌, ◌*◌}
use dumbo_ucy.Shared.Dict.{Dict}
use dumbo_ucy.Rbc.Merkle.{Bytes}

-- The arguments of `provabledispersalbroadcast` and `recastsubprotocol`. `stored_hash sid root` is
-- `PK1.hash_message(str(('STORED', sid, roothash)))`, and so for LOCKED.
pub record Params (Sid Digest Share Sig : Type 0) : Type 0 where
  pub hash : Bytes → Bytes
  pub zfec_encode : ℕ → ℕ → List Bytes → List Bytes
  pub zfec_decode : ℕ → ℕ → List Bytes → List ℕ → List Bytes
  pub stored_hash : Sid → Bytes → Digest
  pub locked_hash : Sid → Bytes → Digest
  pub sign : Digest → Share
  pub verify_share : Share → ℕ → Digest → Bool
  pub verify_signature : Sig → Digest → Bool
  pub combine_shares : Dict ℕ Share → Sig
  pub sid : Sid
  pub pid : ℕ
  pub n : ℕ
  pub f : ℕ
  pub leader : ℕ

-- (roothash, pid, stripe, branch)
abbrev pub Store : Type 0
Store = Bytes × ℕ × Bytes × List Bytes
