-- ===== src/Pbft/Quorum/Window.antt =====
-- The watermark test of pbft-core.go, which subtracts `uint64`s, against the interval it means.
use client_sdk.Prelude.{ℕ, ◌+◌, ◌≤◌, ◌<◌, ◌^◌, ◌≡◌, ◌↔◌, true, arith}
use client_sdk.Pbft.State.{PbftCore}
use client_sdk.Pbft.Quorum.{in_w, in_wv}

-- For a log that ends below 2 ^ 64, a sequence number passes the watermark test exactly if it lies
-- above the low watermark and at most at the high one: the subtraction that wraps lets none in.
pub in_w_iff :
    (n : ℕ) (c : PbftCore)
    → n < 2 ^ 64
    → c.h + c.l < 2 ^ 64
    → (in_w n c ≡ true) ↔ ((c.h < n) × (n ≤ c.h + c.l))
unfolding in_w
in_w_iff n c small fits = ground arith

pub lt_of_in_w :
    (n : ℕ) (c : PbftCore) → n < 2 ^ 64 → c.h + c.l < 2 ^ 64 → in_w n c ≡ true → c.h < n
lt_of_in_w n c small fits h = ((in_w_iff n c small fits).0 h).0

pub in_wv_parts : (v n : ℕ) (c : PbftCore) → in_wv v n c ≡ true → (c.view ≡ v) × (in_w n c ≡ true)
unfolding in_wv
in_wv_parts v n c h = ground arith
