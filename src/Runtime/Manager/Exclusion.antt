-- ===== src/Runtime/Manager/Exclusion.antt =====
-- A runtime in use is nobody else's, and runtimes are told apart by their storage keys only.
use Prim.Native.String.{◌++◌ as concat}
use aura_launcher.Common.{
  ℕ, String, ◌≡◌, ◌≢◌, refl, true, false, none, some, arith, Result, ok, err, Result-cases,
  string_eq, Option-cases, inl, inr, ap,
}
use aura_launcher.Common.Map.{lookup, lookup-insert_self}
use aura_launcher.Runtime.Manager.{
  RuntimeKey, mcp, storage_key, busy, Entry, Manager, use_runtime, drop_guard, release,
  spawned_entry,
}

some-ne-none {ℓ} : {A : Type ℓ} {a : A} → none ≡ some a → ⊥
some-ne-none e = cc

module _ {V E : Type 0} (now : ℕ) (key : RuntimeKey) (spawn : Result E V) (m : Manager V) where
  -- What `use_runtime` leaves behind when it grants the runtime.
  pub used_entry :
      (v : V)
      → (use_runtime now key spawn m).1 ≡ ok v
      → (e : Entry V) × (lookup (storage_key key) (use_runtime now key spawn m).0.entries ≡ some e)
        × (e.busy ≡ true)
        × (e.value ≡ v)
  unfolding use_runtime
  used_entry v g = elim (Option-cases (lookup (storage_key key) m.entries)) [
    | inr (e, found) ↦
        let e' : Entry V = record e { busy = true; last_activity = now } in
        (e', ground (arith, lookup-insert_self (storage_key key) e' m.entries), refl, ground arith)
    | inl miss ↦ elim (Result-cases spawn) [
      | inl (w, spawned) ↦ (
        spawned_entry now w,
        ground (arith, lookup-insert_self (storage_key key) (spawned_entry now w) m.entries),
        refl,
        ground arith,
      )
      | inr (x, failed) ↦ absurd (ground arith)
    ]
  ]

  -- While a runtime is in use, another use of its storage key is refused, and so is its release,
  -- with nothing changed; once the guard is dropped the next use is granted the same value, and
  -- `spawn` is not called.
  pub use_runtime_excludes :
      (later last : ℕ) (other : RuntimeKey) (respawn : Result E V) (v : V)
      → storage_key other ≡ storage_key key
      → (use_runtime now key spawn m).1 ≡ ok v
      → let m' = (use_runtime now key spawn m).0 in
        (use_runtime later other respawn m' ≡ (m', err busy))
        × (release other m' ≡ (m', none))
        × ((use_runtime last other respawn (drop_guard later key m')).1 ≡ ok v)
  use_runtime_excludes later last other respawn v same g =
      let m' = (use_runtime now key spawn m).0 in
      let (e, found, active, valued) = used_entry v g in
      let there : lookup (storage_key other) m'.entries ≡ some e = rw same found in
      let e' : Entry V = record e { busy = false; last_activity = later } in
      (
        unfold use_runtime in rw there (rw active),
        unfold release in rw there (rw active),
        unfold use_runtime drop_guard in
            rw found (rw (same, lookup-insert_self (storage_key key) e' m'.entries) (ap ok valued)),
      )

-- Two keys of different profiles can have one storage key: the server `a/b` without a profile,
-- and the server `a` with profile `b`. The second is then granted the runtime of the first,
-- whatever it would have spawned.
pub profiles_share_runtime :
    {V E : Type 0} (a b : String) (now later last : ℕ) (spawn respawn : Result E V) (m : Manager V)
    (v : V)
    → (use_runtime now (mcp (concat a (concat "/" b)) none) spawn m).1 ≡ ok v
    → (mcp (concat a (concat "/" b)) none ≢ mcp a (some b))
      × ((use_runtime last (mcp a (some b)) respawn (
            drop_guard later
              (mcp (concat a (concat "/" b)) none)
              (use_runtime now (mcp (concat a (concat "/" b)) none) spawn m).0)).1
          ≡ ok v)
profiles_share_runtime a b now later last spawn respawn m v g = (
  unfold mcp in λ e. some-ne-none (ap (λ (k : RuntimeKey). k.profile) e),
  (use_runtime_excludes now (mcp (concat a (concat "/" b)) none) spawn m later last (mcp a (some b))
      respawn v (unfold storage_key mcp in refl) g).2,
)
