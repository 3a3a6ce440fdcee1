-- ===== src/Identity/Sound.antt =====
-- session-identity.ts: the two tables agree after every operation.
use phus.Prelude.{
  String, ◌≡◌, refl, sym, ◌∙◌, subst, inl, inr, Bool, true, false, not, ◌&&◌, List, [], ◌∷◌, ◌++◌,
  map, arith, eq_iff, if◌then◌else◌, Bool-cases, any, filter, any-append, All, All-append,
  All-filter,
}
use text.Mathlib.Text.{◌==◌ as str_eq}
use phus.Prelude.{any-filter, any_mono, All-mono}
use phus.Identity.{
  IdentityRow, SubjectRow, SessionIdentityStore, has_row_id, is_subject_of, has_key, update,
}
use phus.Identity.Methods.{delete_subject}

-- PRIMARY KEY (channel, subject_id)
abbrev pub IsKeyed : List SubjectRow → Type 0
IsKeyed [] = Unit
IsKeyed (row ∷ rows) = (any (has_key row.channel row.subject_id) rows ≡ false) × IsKeyed rows

pub record IsSound (s : SessionIdentityStore) : Type 0 where
  -- The identity of a subject is there.
  pub bound :
      All (λ (r : SubjectRow). any (has_row_id r.identity_id) s.identities ≡ true) s.subjects
  -- An identity has a subject.
  pub linked : All (λ (i : IdentityRow). any (is_subject_of i.id) s.subjects ≡ true) s.identities
  pub keyed : IsKeyed s.subjects

-- An UPDATE that leaves the id.
module _ (id : String) (f : IdentityRow → IdentityRow)
    (keeps : (row : IdentityRow) → (f row).id ≡ row.id) where
  abbrev changed : IdentityRow → IdentityRow
  changed row = if has_row_id id row then f row else row

  changed-id : (row : IdentityRow) → (changed row).id ≡ row.id
  changed-id row = elim (Bool-cases (has_row_id id row)) [
    | inl t ↦ rw t (keeps row)
    | inr e ↦ rw e refl
  ]

  pub any-update :
      (other : String) (rows : List IdentityRow)
      → any (has_row_id other) (map changed rows) ≡ any (has_row_id other) rows
  any-update other [] = refl
  any-update other (row ∷ rows) = ground (arith, changed-id row, any-update other rows)

  linked-update :
      (subjects : List SubjectRow) (rows : List IdentityRow)
      → All (λ (i : IdentityRow). any (is_subject_of i.id) subjects ≡ true) rows
      → All (λ (i : IdentityRow). any (is_subject_of i.id) subjects ≡ true) (map changed rows)
  linked-update subjects [] a = tt
  linked-update subjects (row ∷ rows) (h, a) = (
    subst (λ i. any (is_subject_of i) subjects ≡ true) (sym (changed-id row)) h,
    linked-update subjects rows a,
  )

  pub update-IsSound : (s : SessionIdentityStore) → IsSound s → IsSound (update id f s)
  unfolding update
  update-IsSound s h = record {
    bound =
        All-mono _ _ (λ (r : SubjectRow) b. any-update r.identity_id s.identities ∙ b) s.subjects
          h.bound;
    linked = linked-update s.subjects s.identities h.linked;
    keyed = h.keyed;
  }

any-more : {A : Type 0} (p : A → Bool) (xs ys : List A) → any p xs ≡ true → any p (xs ++ ys) ≡ true
any-more p xs ys h = ground (arith, any-append p xs ys)

any-last :
    {A : Type 0} (p : A → Bool) (xs : List A) (x : A) → p x ≡ true → any p (xs ++ x ∷ []) ≡ true
any-last p xs x h = ground (arith, any-append p xs (x ∷ []))

IsKeyed-append :
    (rows : List SubjectRow) (row : SubjectRow)
    → any (has_key row.channel row.subject_id) rows ≡ false
    → IsKeyed rows
    → IsKeyed (rows ++ row ∷ [])
IsKeyed-append [] row h k = (refl, tt)
IsKeyed-append (r ∷ rows) row h (e, k) = (
  ground (
    arith,
    e,
    h,
    any-append (has_key r.channel r.subject_id) rows (row ∷ []),
    eq_iff r.channel row.channel,
    eq_iff r.subject_id row.subject_id,
    eq_iff row.channel r.channel,
    eq_iff row.subject_id r.subject_id,
  ),
  IsKeyed-append rows row (ground (arith, h)) k,
)

-- A subject for an identity that is there.
pub insert_subject-IsSound :
    (row : SubjectRow) (s : SessionIdentityStore)
    → any (has_row_id row.identity_id) s.identities ≡ true
    → any (has_key row.channel row.subject_id) s.subjects ≡ false
    → IsSound s
    → IsSound (record s { subjects = s.subjects ++ row ∷ [] })
insert_subject-IsSound row s known free h = record {
  bound = All-append _ s.subjects (row ∷ []) h.bound (known, tt);
  linked =
      All-mono _ _ (λ (i : IdentityRow) b. any-more (is_subject_of i.id) s.subjects (row ∷ []) b)
        s.identities h.linked;
  keyed = IsKeyed-append s.subjects row free h.keyed;
}

-- A new identity with its first subject.
pub insert_new-IsSound :
    (identity : IdentityRow) (row : SubjectRow) (s : SessionIdentityStore)
    → row.identity_id ≡ identity.id
    → any (has_key row.channel row.subject_id) s.subjects ≡ false
    → IsSound s
    → IsSound
        (record s { identities = s.identities ++ identity ∷ []; subjects = s.subjects ++ row ∷ [] })
insert_new-IsSound identity row s same free h = record {
  bound =
      All-append _ s.subjects (row ∷ [])
        (All-mono _ _
          (λ (r : SubjectRow) b. any-more (has_row_id r.identity_id) s.identities (identity ∷ []) b)
          s.subjects h.bound)
        (
          any-last (has_row_id row.identity_id) s.identities identity
              ((eq_iff identity.id row.identity_id).1 (sym same)),
          tt,
        );
  linked =
      All-append _ s.identities (identity ∷ [])
        (All-mono _ _ (λ (i : IdentityRow) b. any-more (is_subject_of i.id) s.subjects (row ∷ []) b)
          s.identities h.linked)
        (
          any-last (is_subject_of identity.id) s.subjects row
              ((eq_iff row.identity_id identity.id).1 same),
          tt,
        );
  keyed = IsKeyed-append s.subjects row free h.keyed;
}

IsKeyed-filter :
    (p : SubjectRow → Bool) (rows : List SubjectRow) → IsKeyed rows → IsKeyed (filter p rows)
IsKeyed-filter p [] k = tt
IsKeyed-filter p (row ∷ rows) (e, k) = elim (Bool-cases (p row)) [
  | inl t ↦
      rw t (any_filter_false (has_key row.channel row.subject_id) p rows e, IsKeyed-filter p rows k)
  | inr f ↦ rw f (IsKeyed-filter p rows k)
]
  where
    any_filter_false :
        (q p : SubjectRow → Bool) (rows : List SubjectRow)
        → any q rows ≡ false
        → any q (filter p rows) ≡ false
    any_filter_false q p [] h = refl
    any_filter_false q p (r ∷ rows) h = ground (arith, h, any_filter_false q p rows)

-- A subject goes where its identity has another.
pub delete_subject-IsSound :
    (id channel subject_id : String) (s : SessionIdentityStore)
    → any (λ r. is_subject_of id r && not (has_key channel subject_id r)) s.subjects ≡ true
    → IsSound s
    → IsSound (delete_subject id channel subject_id s)
delete_subject-IsSound id channel subject_id s other h = record {
  bound = All-filter _ keep s.subjects h.bound;
  linked = All-mono _ _ still_linked s.identities h.linked;
  keyed = IsKeyed-filter keep s.subjects h.keyed;
}
  where
    keep : SubjectRow → Bool
    keep row = not (is_subject_of id row && has_key channel subject_id row)

    still_linked :
        (i : IdentityRow)
        → any (is_subject_of i.id) s.subjects ≡ true
        → any (is_subject_of i.id) (filter keep s.subjects) ≡ true
    still_linked i b =
        any-filter (is_subject_of i.id) keep s.subjects ∙ elim (Bool-cases (str_eq i.id id)) [
          | inl t ↦
              any_mono _ (λ r. keep r && is_subject_of i.id r)
                (λ r e.
                  ground (
                    arith,
                    e,
                    t,
                    eq_iff i.id id,
                    eq_iff r.identity_id id,
                    eq_iff r.identity_id i.id,
                  ))
                s.subjects other
          | inr f ↦
              any_mono (is_subject_of i.id) (λ r. keep r && is_subject_of i.id r)
                (λ r e.
                  ground (
                    arith,
                    e,
                    f,
                    eq_iff i.id id,
                    eq_iff r.identity_id id,
                    eq_iff r.identity_id i.id,
                  ))
                s.subjects b
        ]
