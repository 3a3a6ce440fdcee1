-- ===== src/Registry/Present.antt =====
-- session-runtime-registry.ts: the runtime that `getOrCreate` gives stays in the registry, so that
-- `this.entries.get(sessionId)!` in `runExclusive` finds it.
use phus.Prelude.{
  ℕ, String, ◌≡◌, refl, sym, subst, ◌≢◌, inl, inr, Bool, true, false, not, Option, none, some,
  eq_of_some, List, [], ◌∷◌, ◌++◌, arith, eq_iff, eq_refl, Bool-cases, Option-cases, filter, find?,
  All, All-append, All-filter,
}
use text.Mathlib.Text.{◌==◌ as str_eq}
use phus.Registry.{
  RuntimeEntry, SessionRuntimeRegistry, Effect, has_session, is_evictable, find_entry, touch,
  evict_if_needed,
}
use phus.Registry.Sessions.{insert_entry, add_entry, get_or_create}
use phus.Registry.Evict.{IsKeyed, evict_if_needed-IsEvicted}

abbrev pub Absent : String → List RuntimeEntry → Type 0
Absent id entries = All (λ e. has_session id e ≡ false) entries

find-Absent :
    (id : String) (entries : List RuntimeEntry)
    → find? (has_session id) entries ≡ none
    → Absent id entries
find-Absent id [] h = tt
find-Absent id (e ∷ entries) h = elim (Bool-cases (has_session id e)) [
  | inl t ↦ absurd (ground (arith, h, t))
  | inr f ↦ (f, find-Absent id entries (ground (arith, h, f)))
]

-- An entry of the session is among those that are kept.
Absent-filter :
    (id : String) (keep : RuntimeEntry → Bool) (entries : List RuntimeEntry)
    → ((e : RuntimeEntry) → has_session id e ≡ true → keep e ≡ true)
    → Absent id (filter keep entries)
    → Absent id entries
Absent-filter id keep [] h a = tt
Absent-filter id keep (e ∷ entries) h a = elim (Bool-cases (has_session id e)) [
  | inl t ↦ let k = h e t in let (f, b) = (rw k at a) in absurd (cc (t, f))
  | inr f ↦ elim (Bool-cases (keep e)) [
    | inl t ↦ let (g, b) = (rw t at a) in (f, Absent-filter id keep entries h b)
    | inr k ↦ (f, Absent-filter id keep entries h (rw k at a))
  ]
]

protected-keeps :
    (id : String) (selected : Option String) (e : RuntimeEntry)
    → has_session id e ≡ true
    → not (is_evictable (some id) selected e) ≡ true
protected-keeps id selected e t = ground (arith, t, eq_iff e.session_id id, eq_iff id e.session_id)

-- The protected session is not evicted.
evict-Absent :
    (has_messages : String → Bool) (id : String) (r : SessionRuntimeRegistry)
    → IsKeyed r.entries
    → Absent id (evict_if_needed has_messages (some id) r).0.entries
    → Absent id r.entries
evict-Absent has_messages id r keyed a =
    let keep : RuntimeEntry → Bool = λ e. not (is_evictable (some id) r.selected_session_id e) in
    let i = evict_if_needed-IsEvicted has_messages (some id) r keyed in
    Absent-filter id keep r.entries (protected-keeps id r.selected_session_id) (
      subst (Absent id) i.kept
        (All-filter _ keep (evict_if_needed has_messages (some id) r).0.entries a))

Absent-touch :
    (id key : String) (now : ℕ) (entries : List RuntimeEntry)
    → Absent id (touch key now entries)
    → Absent id entries
Absent-touch id key now [] h = tt
Absent-touch id key now (e ∷ entries) (f, h) = elim (Bool-cases (has_session key e)) [
  | inl t ↦ (rw t at f, Absent-touch id key now entries h)
  | inr g ↦ (rw g at f, Absent-touch id key now entries h)
]

Absent-find :
    (id : String) (e : RuntimeEntry) (entries : List RuntimeEntry)
    → find? (has_session id) entries ≡ some e
    → ¬ Absent id entries
Absent-find id e [] found h = cc found
Absent-find id e (x ∷ entries) found (f, h) = Absent-find id e entries (ground (arith, f, found)) h

Absent-last :
    (id : String) (e : RuntimeEntry) (entries : List RuntimeEntry)
    → has_session id e ≡ true
    → ¬ Absent id (entries ++ e ∷ [])
Absent-last id e [] t (f, h) = cc (t, f)
Absent-last id e (x ∷ entries) t (f, h) = Absent-last id e entries t h

module _ (e : RuntimeEntry) where
  -- `e` is not another entry of the session of an older one.
  older-entries :
      (entries all_entries : List RuntimeEntry)
      → Absent e.session_id entries
      → All (λ x. All (λ y. has_session x.session_id y ≡ true → y ≡ x) all_entries) entries
      → All
          (λ x. All (λ y. has_session x.session_id y ≡ true → y ≡ x) (all_entries ++ e ∷ []))
          entries
  older-entries [] all_entries a h = tt
  older-entries (x ∷ entries) all_entries (f, a) (p, h) =
      let other : (has_session x.session_id e ≡ true → e ≡ x) = λ t. absurd (
        ground (arith, t, f, eq_iff e.session_id x.session_id, eq_iff x.session_id e.session_id)) in
      (All-append _ all_entries (e ∷ []) p (other, tt), older-entries entries all_entries a h)

  new_entry :
      (entries : List RuntimeEntry)
      → Absent e.session_id entries
      → All (λ y. has_session e.session_id y ≡ true → y ≡ e) (entries ++ e ∷ [])
  new_entry [] a = ((λ t. refl), tt)
  new_entry (x ∷ entries) (f, a) = ((λ t. absurd (cc (t, f))), new_entry entries a)

  -- A session without an entry gets one, and still each has one.
  pub IsKeyed-add :
      (entries : List RuntimeEntry)
      → Absent e.session_id entries
      → IsKeyed entries
      → IsKeyed (entries ++ e ∷ [])
  IsKeyed-add entries a keyed =
      All-append _ entries (e ∷ []) (older-entries entries entries a keyed)
        (new_entry entries a, tt)

insert_entry-present :
    (has_messages : String → Bool) (id : String) (now : ℕ) (r : SessionRuntimeRegistry)
    → IsKeyed r.entries
    → Absent id r.entries
    → ¬ Absent id (insert_entry has_messages id now r).0.entries
unfolding insert_entry
insert_entry-present has_messages id now r keyed absent a =
    let e : RuntimeEntry = record { session_id = id; last_used_at = now; pending = 0 } in
    Absent-last id e r.entries (eq_refl id)
      (evict-Absent has_messages id _ (IsKeyed-add e r.entries absent keyed) a)

add_entry-present :
    (has_messages : String → Bool) (id made : String) (now : ℕ) (r : SessionRuntimeRegistry)
    (after : SessionRuntimeRegistry × List Effect)
    → IsKeyed r.entries
    → Absent id r.entries
    → add_entry has_messages id made now r ≡ some after
    → ¬ Absent id after.0.entries
unfolding add_entry
add_entry-present has_messages id made now r after keyed absent e a =
    elim (Bool-cases (str_eq made id)) [
      | inl t ↦
          let z = eq_of_some (rw (add_entry, t) at e) in
          insert_entry-present has_messages id now r keyed absent
            (subst (λ u. Absent id u.0.entries) (sym z) a)
      | inr f ↦ absurd (let z = (rw (add_entry, f) at e) in cc z)
    ]

-- What `getOrCreate` returns is in the registry, and no eviction takes it away: where it does not
-- throw, the session asked for has an entry afterwards, if before no session had two.
pub get_or_create-present :
    (has_messages : String → Bool) (id made : String) (now : ℕ) (r : SessionRuntimeRegistry)
    (after : SessionRuntimeRegistry × List Effect)
    → IsKeyed r.entries
    → get_or_create has_messages id made now r ≡ some after
    → find_entry after.0 id ≢ none
unfolding get_or_create
get_or_create-present has_messages id made now r after keyed e missing =
    let absent = find-Absent id after.0.entries missing in
    elim (Bool-cases r.is_disposed) [
      | inl t ↦ absurd (let z = (rw (get_or_create, t) at e) in cc z)
      | inr f ↦ elim (Option-cases (find_entry r id)) [
        | inr (x, found) ↦
            let z = eq_of_some (rw (get_or_create, f, found) at e) in
            Absent-find id x r.entries found
              (Absent-touch id id now r.entries (subst (λ u. Absent id u.0.entries) (sym z) absent))
        | inl unfound ↦
            add_entry-present has_messages id made now r after keyed
              (find-Absent id r.entries unfound) (rw (get_or_create, f, unfound) at e) absent
      ]
    ]
