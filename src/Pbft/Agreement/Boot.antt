-- ===== src/Pbft/Agreement/Boot.antt =====
-- A network of replicas that `newPbftCore` has just built.
use client_sdk.Prelude.{ℕ, ◌≡◌, some, List, [], arith, ◌<◌, ◌^◌, lookup, refl}
use client_sdk.Pbft.State.{PbftCore, Env, Config, new_pbft_core}
use client_sdk.Pbft.Receive.Invariant.{Source, IsValid}
use client_sdk.Pbft.Agreement.Network.{Setup, Net, NetIsValid, source_at}

module _ (env : Env) (id : ℕ) (config : Config) (startup_id : List ℕ) (c : PbftCore) where
  -- The fields of the new replica that the invariant reads.
  record IsNew : Type 0 where
    config_is :
        (c.id ≡ id)
        × (c.n_replicas ≡ config.n)
        × (c.replica_count ≡ config.n)
        × (c.f ≡ config.f)
        × (c.view ≡ 0)
    numbers : (c.h ≡ 0) × (c.l < 2 ^ 64) × (c.last_exec ≡ 0) × (c.seq_no ≡ 0)
    stores : (c.cert_store ≡ []) × (c.pset ≡ []) × (c.qset ≡ []) × (c.outbox ≡ [])

  new_pbft_core-IsNew : new_pbft_core env id config startup_id ≡ some c → IsNew
  unfolding new_pbft_core
  new_pbft_core-IsNew e = ground arith

  pub new_pbft_core-IsValid :
      (src : Source)
      → src.id ≡ id
      → src.n_replicas ≡ config.n
      → src.f ≡ config.f
      → src.view ≡ 0
      → src.had_pre_prepares ≡ []
      → src.had_prepares ≡ []
      → new_pbft_core env id config startup_id ≡ some c
      → IsValid src c
  unfolding lookup
  new_pbft_core-IsValid src is_id is_n is_f is_view no_pre no_prep e =
      let new = new_pbft_core-IsNew e in
      let (no_certs, no_p, no_q, silent) = new.stores in
      record {
        fits = omega (arith, new.numbers);
        config = ground (arith, new.config_is);
        kept_pre_prepares = λ b i. absurd (rw no_pre at i);
        kept_prepares = λ b i. absurd (rw no_prep at i);
        exec_small = omega (arith, new.numbers);
        seq_small = omega (arith, new.numbers);
        certs = λ idx cert found. absurd (cc (rw no_certs at found));
        pset_below = λ n p found. absurd (cc (rw no_p at found));
        qset_below = λ i q found. absurd (cc (rw no_q at found));
        pre_prepares_own = rw silent tt;
        pre_prepares_below = rw silent tt;
        pre_prepares_one = rw silent tt;
        prepares_own = rw silent tt;
        prepares_recorded = rw silent tt;
        prepares_one = rw silent tt;
        commits_own = rw silent tt;
        commits_recorded = rw silent tt;
        commits_one = rw silent tt;
        in_order = rw silent tt;
      }

-- A network whose every replica is new is valid.
pub new_pbft_core-NetIsValid :
    (s : Setup) (net : Net) (config : Config) (startup_id : List ℕ)
    → s.n_replicas ≡ config.n
    → s.f ≡ config.f
    → s.view ≡ 0
    → ((i : ℕ) → new_pbft_core s.env i config startup_id ≡ some (net i))
    → NetIsValid s net
new_pbft_core-NetIsValid s net config startup_id is_n is_f is_view new i lt good =
    let (_, _, _, silent) =
      (new_pbft_core-IsNew s.env i config startup_id (net i) (new i)).stores in
    new_pbft_core-IsValid s.env i config startup_id (net i) (source_at s net i) refl is_n is_f
      is_view (rw silent refl) (rw silent refl) (new i)
