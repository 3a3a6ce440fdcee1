-- ===== src/Hooks/Ranked.antt =====
-- registry.ts: the order of the implementations of a hook, and its mode.
use phus.Prelude.{
  String, ◌≡◌, refl, sym, ap, ◌∙◌, subst, inl, inr, Bool, true, false, not, ◌&&◌, Option, none,
  some, List, [], ◌∷◌, ◌++◌, map, append-nil, append_assoc, arith, eq_iff, if◌then◌else◌,
  Bool-cases, filter, filter-append,
}
use text.Mathlib.Text.{◌==◌ as str_eq}
use phus.Prelude.Maps.{lookup, put, lookup-put, lookup-put_other}
use phus.Prelude.Integers.{ℤ, ltb_int, ltb_int_irrefl, ltb_int_trans, ltb_int_negatively}
use phus.Prelude.Sort.{IsWeakOrder, sort}
use phus.Prelude.Sort.Stable.{IsSorted, sort-IsSorted, filter-sort}
use phus.Hooks.{
  HookMode, HookImpl, RegisteredHook, HookRegistry, mode_or, priority_or, has_mode, new_registry,
  higher, or_empty, hooks_of, mode_of, register,
}

-- A call of `register`.
pub record Registration (V E : Type 0) : Type 0 where
  pub name : String
  pub impl : HookImpl V E
  pub mode : Option HookMode
  pub priority : Option ℤ

module _ {V E : Type 0} where
  abbrev pub register_all : List (Registration V E) → HookRegistry V E → HookRegistry V E
  register_all [] r = r
  register_all (g ∷ gs) r = register_all gs (register g.name g.impl g.mode g.priority r)

  abbrev pub is_for : String → Registration V E → Bool
  is_for name g = str_eq g.name name

  abbrev pub hook_of : Registration V E → RegisteredHook V E
  hook_of g = record { impl = g.impl; priority = priority_or g.priority }

  -- `a.priority === b.priority`
  abbrev pub same_priority : ℤ → RegisteredHook V E → Bool
  same_priority p h = not (ltb_int p h.priority) && not (ltb_int h.priority p)

  abbrev pub first_mode : List (Registration V E) → Option HookMode
  first_mode [] = none
  first_mode (g ∷ gs) = some (mode_or g.mode HookMode.chain)

  -- The order and the mode that the calls of `register` for one hook ask for.
  pub record IsRanked (asked : List (Registration V E)) (hooks : List (RegisteredHook V E))
      (mode : HookMode) : Type 0 where
    pub sorted : IsSorted higher hooks
    pub stable :
        (p : ℤ) → filter (same_priority p) hooks ≡ filter (same_priority p) (map hook_of asked)
    pub first_wins : mode ≡ mode_or (first_mode asked) HookMode.chain

  higher-IsWeakOrder : IsWeakOrder (higher {V = V} {E = E})
  higher-IsWeakOrder = record {
    trans = λ a b c h k. ltb_int_trans c.priority b.priority a.priority k h;
    negatively = λ a b c h k. ltb_int_negatively c.priority b.priority a.priority k h;
  }

  -- Of two hooks with the priority `p` none is higher.
  same_priority-IsClass :
      (p : ℤ) (x y : RegisteredHook V E)
      → same_priority p x ≡ true
      → same_priority p y ≡ true
      → higher x y ≡ false
  same_priority-IsClass p x y h k =
      ltb_int_negatively y.priority p x.priority (ground arith) (ground arith)

  -- What `r` holds for `name` after the calls `asked` for it.
  record Tracks (name : String) (asked : List (Registration V E)) (r : HookRegistry V E)
      : Type 0 where
    sorted : IsSorted higher (hooks_of name r)
    stable :
        (p : ℤ)
        → filter (same_priority p) (hooks_of name r) ≡ filter (same_priority p) (map hook_of asked)
    modes : lookup name r.modes ≡ first_mode asked

  map-append :
      (xs ys : List (Registration V E)) → map hook_of (xs ++ ys) ≡ map hook_of xs ++ map hook_of ys
  map-append [] ys = refl
  map-append (x ∷ xs) ys = ap (λ r. hook_of x ∷ r) (map-append xs ys)

  -- Adding at the end and sorting again keeps the order within each priority.
  filter-sort_again :
      (p : ℤ) (hooks : List (RegisteredHook V E)) (asked : List (Registration V E))
      (g : Registration V E)
      → filter (same_priority p) hooks ≡ filter (same_priority p) (map hook_of asked)
      → filter (same_priority p) (sort higher (hooks ++ hook_of g ∷ []))
        ≡ filter (same_priority p) (map hook_of (asked ++ g ∷ []))
  filter-sort_again p hooks asked g h =
      filter-sort higher (same_priority p) (hooks ++ hook_of g ∷ []) (same_priority-IsClass p)
      ∙ filter-append (same_priority p) hooks (hook_of g ∷ [])
      ∙ ap (λ l. l ++ filter (same_priority p) (hook_of g ∷ [])) h
      ∙ sym (filter-append (same_priority p) (map hook_of asked) (hook_of g ∷ []))
      ∙ ap (filter (same_priority p)) (sym (map-append asked (g ∷ [])))

  modes-put :
      (name : String) (mode : Option HookMode) (modes : List (String × HookMode))
      (asked : List (Registration V E)) (g : Registration V E)
      → lookup name modes ≡ first_mode asked
      → lookup name (
          if has_mode (lookup name modes)
          then modes
          else put name (mode_or g.mode HookMode.chain) modes)
        ≡ first_mode (asked ++ g ∷ [])
  modes-put name mode modes [] g h = rw h (lookup-put name (mode_or g.mode HookMode.chain) modes)
  modes-put name mode modes (a ∷ asked) g h = rw h h

  register-same :
      (asked : List (Registration V E)) (g : Registration V E) (r : HookRegistry V E)
      → Tracks g.name asked r
      → Tracks g.name (asked ++ g ∷ []) (register g.name g.impl g.mode g.priority r)
  unfolding register
  register-same asked g r t =
      let hooks = sort higher (hooks_of g.name r ++ hook_of g ∷ []) in
      let e : or_empty (lookup g.name (put g.name hooks r.hooks)) ≡ hooks =
        ap or_empty (lookup-put g.name hooks r.hooks) in
      record {
        sorted = subst (IsSorted higher) (sym e) (
            sort-IsSorted higher higher-IsWeakOrder (λ h. ltb_int_irrefl h.priority)
              (hooks_of g.name r ++ hook_of g ∷ []));
        stable = λ p.
            ap (filter (same_priority p)) e
            ∙ filter-sort_again p (hooks_of g.name r) asked g (t.stable p);
        modes = modes-put g.name g.mode r.modes asked g t.modes;
      }

  register-other :
      (name : String) (asked : List (Registration V E)) (g : Registration V E)
      (r : HookRegistry V E)
      → str_eq g.name name ≡ false
      → Tracks name asked r
      → Tracks name asked (register g.name g.impl g.mode g.priority r)
  unfolding register
  register-other name asked g r f t =
      let hooks = sort higher (hooks_of g.name r ++ hook_of g ∷ []) in
      let e : or_empty (lookup name (put g.name hooks r.hooks)) ≡ hooks_of name r =
        ap or_empty (lookup-put_other g.name name hooks r.hooks f) in
      record {
        sorted = subst (IsSorted higher) (sym e) t.sorted;
        stable = λ p. ap (filter (same_priority p)) e ∙ t.stable p;
        modes = ap (lookup name) refl ∙ other_mode (has_mode (lookup g.name r.modes)) ∙ t.modes;
      }
    where
      other_mode :
          (b : Bool)
          → lookup name (if b then r.modes else put g.name (mode_or g.mode HookMode.chain) r.modes)
            ≡ lookup name r.modes
      other_mode true = refl
      other_mode false = lookup-put_other g.name name (mode_or g.mode HookMode.chain) r.modes f

  register_all-Tracks :
      (name : String) (asked gs : List (Registration V E)) (r : HookRegistry V E)
      → Tracks name asked r
      → Tracks name (asked ++ filter (is_for name) gs) (register_all gs r)
  register_all-Tracks name asked [] r t = rw (append-nil asked) t
  register_all-Tracks name asked (g ∷ gs) r t = elim (Bool-cases (str_eq g.name name)) [
    | inl e ↦
        let same : g.name ≡ name = (eq_iff g.name name).0 e in
        rw e (
          rw (sym (append_assoc asked (g ∷ []) (filter (is_for name) gs))) (
            register_all-Tracks name (asked ++ g ∷ []) gs _ (
              subst (λ n. Tracks n (asked ++ g ∷ []) (register g.name g.impl g.mode g.priority r))
                same (register-same asked g r (subst (λ n. Tracks n asked r) (sym same) t)))))
    | inr f ↦ rw f (register_all-Tracks name asked gs _ (register-other name asked g r f t))
  ]

  new_registry-Tracks :
      (name : String) (isolate : Option Bool) → Tracks name [] (new_registry isolate)
  unfolding lookup
  new_registry-Tracks name none = record { sorted = tt; stable = λ p. refl; modes = refl }
  new_registry-Tracks name (some b) = record { sorted = tt; stable = λ p. refl; modes = refl }

  -- After any calls of `register` on a new registry, the implementations of a hook are those
  -- registered for it, from the highest priority to the lowest and in the order of their
  -- registration within one priority; and its mode is that of the first call for it.
  pub register_all-IsRanked :
      (gs : List (Registration V E)) (isolate : Option Bool) (name : String)
      → IsRanked
          (filter (is_for name) gs)
          (hooks_of name (register_all gs (new_registry isolate)))
          (mode_of name (register_all gs (new_registry isolate)))
  register_all-IsRanked gs isolate name =
      let t =
        register_all-Tracks name [] gs (new_registry isolate) (new_registry-Tracks name isolate) in
      record {
        sorted = t.sorted;
        stable = t.stable;
        first_wins = ap (λ m. mode_or m HookMode.chain) t.modes;
      }
