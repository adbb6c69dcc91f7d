-- ===== src/Mesh/Ttl.antt =====
-- The hop counter: src/BITCHAT/mesh/TTLManager.ts.
use i_tantra.Base.{
  ℕ, suc, ◌-◌, ◌<◌, ◌≡◌, Bool, true, false, Result, ok, err, ltb, if◌then◌else◌, arith,
}

pub data TtlError : Type 0 where
  invalid_ttl : TtlError

unfoldable pub create_initial_ttl : ℕ
create_initial_ttl = 5

unfoldable pub can_relay : ℕ → Bool
can_relay ttl = if ltb 255 ttl then false else ltb 0 ttl

-- Math.max(0, ttl - 1): `-` on ℕ stops at 0.
unfoldable pub decrement : ℕ → Result TtlError ℕ
decrement ttl = if ltb 255 ttl then err invalid_ttl else ok (ttl - 1)

-- A relayable packet loses exactly one hop, and stays valid.
pub decrement-can_relay :
    (ttl : ℕ) → can_relay ttl ≡ true → (t : ℕ) × (decrement ttl ≡ ok t) × (suc t ≡ ttl) × (t < 255)
unfolding can_relay decrement
decrement-can_relay ttl h = (ttl - 1, ground arith, ground arith, ground arith)
