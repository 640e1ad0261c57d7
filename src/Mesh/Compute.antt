-- ===== src/Mesh/Compute.antt =====
-- `MeshEngine.Compute`, backend/internal/engine/mesh_engine.go. The engine's lock makes the calls a
-- sequence, so a call takes the engine and gives it back.
use metalwatch.Base.{
  ℕ, ◌≡◌, refl, sym, ap, subst, ◌∙◌, Option, none, some, List, Bool, true, false, String, ◌==◌,
  ==_iff, if◌then◌else◌, Bool-cases, inl, inr, arith,
}
use metalwatch.Base.Int.{ℤ, pos, ◌+ℤ◌, wrap64}
use metalwatch.Mesh.Graph.{LinkProbe, MeshConfig, Links, with_defaults}
use metalwatch.Mesh.Fingerprint.{fingerprint}
use metalwatch.Mesh.Table.{RouteTable, route_entries}

-- `last_fp` is none before the first call: `lastFP` is then "", which no sum of eight bytes is.
pub record MeshEngine : Type 0 where
  pub cfg : MeshConfig
  pub last_fp : Option ℕ
  pub last_version : ℤ

unfoldable pub new_mesh_engine : MeshConfig → MeshEngine
unfolding with_defaults
new_mesh_engine cfg = record { cfg = with_defaults cfg; last_fp = none; last_version = pos 0 }

abbrev same_sum : ℕ → Option ℕ → Bool
same_sum fp none = false
same_sum fp (some last) = fp == last

unfoldable pub compute :
    (Links → Links) → MeshEngine → List (Option LinkProbe) → String → ℤ → MeshEngine × RouteTable
unfolding fingerprint route_entries wrap64 ◌+ℤ◌
compute order e probes source computed_at =
    let fp = fingerprint probes in
    let e' =
      if same_sum fp e.last_fp
      then e
      else record e { last_fp = some fp; last_version = wrap64 (e.last_version +ℤ pos 1) } in
    (
      e',
      record {
        version = e'.last_version;
        computed_at = computed_at;
        entries = route_entries e.cfg order probes source;
        max_hops = e.cfg.max_hops;
      },
    )

module _ (order : Links → Links) (e : MeshEngine) (ps : List (Option LinkProbe)) (source : String)
    (at : ℤ) where
  -- After a call the engine knows the fingerprint and the version that it gave.
  after-compute :
      ((compute order e ps source at).0.last_fp ≡ some (fingerprint ps))
      × ((compute order e ps source at).0.last_version ≡ (compute order e ps source at).1.version)
      × ((compute order e ps source at).0.cfg ≡ e.cfg)
  unfolding compute
  after-compute = elim (Bool-cases (same_sum (fingerprint ps) e.last_fp)) [
    | inl s ↦ rw (compute, s) (same_last (fingerprint ps) e.last_fp s, refl, refl)
    | inr s ↦ rw (compute, s) (refl, refl, refl)
  ]
    where
      same_last : (fp : ℕ) (last : Option ℕ) → same_sum fp last ≡ true → last ≡ some fp
      same_last fp (some last) s = ap (λ (n : ℕ). some n) (sym ((==_iff fp last).0 s))
      same_last fp none s = absurd (ground (arith, s))

  entries_lem : (compute order e ps source at).1.entries ≡ route_entries e.cfg order ps source
  unfolding compute
  entries_lem = refl

  -- What a call gives from an engine whose fingerprint is known.
  compute-version :
      (fp : ℕ)
      → e.last_fp ≡ some fp
      → (compute order e ps source at).1.version
        ≡ (if fingerprint ps == fp then e.last_version else wrap64 (e.last_version +ℤ pos 1))
  unfolding compute
  compute-version fp k = elim (Bool-cases (fingerprint ps == fp)) [
    | inl s ↦ rw (compute, k, s) refl
    | inr s ↦ rw (compute, k, s) refl
  ]

-- Of two calls of Compute in a row the second gives the version of the first where the probes have
-- the same fingerprint, and else the next one; its entries are those of its own probes and source.
pub compute_twice :
    (order : Links → Links) (e : MeshEngine) (ps qs : List (Option LinkProbe)) (from to : String)
    (at later : ℤ)
    → let first = compute order e ps from at in
      let second = compute order first.0 qs to later in
      (second.1.version ≡ (
        if fingerprint qs == fingerprint ps
        then first.1.version
        else wrap64 (first.1.version +ℤ pos 1)))
      × (second.1.entries ≡ route_entries e.cfg order qs to)
compute_twice order e ps qs from to at later =
    let first = compute order e ps from at in
    let (fp, version, cfg) = after-compute order e ps from at in
    (
      subst
          (λ (v : ℤ).
            (compute order first.0 qs to later).1.version
            ≡ (if fingerprint qs == fingerprint ps then v else wrap64 (v +ℤ pos 1)))
          version (compute-version order first.0 qs to later (fingerprint ps) fp),
      entries_lem order first.0 qs to later
          ∙ ap (λ (c : MeshConfig). route_entries c order qs to) cfg,
    )
