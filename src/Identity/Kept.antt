-- ===== src/Identity/Kept.antt =====
-- session-identity.ts: every method of the store keeps its tables sound.
use phus.Prelude.{
  ℕ, String, ◌≡◌, refl, sym, ap, ◌∙◌, subst, inl, inr, Bool, true, false, not, ◌&&◌, Option, none,
  some, eq_of_some, List, [], ◌∷◌, map, ◌==◌, if◌then◌else◌, Bool-cases, Option-cases, length, any,
  filter, find?,
}
use text.Mathlib.Text.{◌==◌ as str_eq}
use phus.Prelude.{any-filter, any-of_length, any-map}
use phus.Prelude.Sort.{sort}
use phus.Prelude.Sort.Stable.{any-sort}
use phus.Identity.{
  SessionIdentity, SubjectRow, SessionIdentityStore, Result, has_row_id, is_subject_of, has_key,
  linked_before, to_subject, subjects_for, row_to_identity, get_open, find_open, insert_identity,
  insert_subject,
}
use phus.Identity.Methods.{
  if_open, insert_both, create, touch_existing, get_or_create_by_subject, or_ignore, link_subject,
  is_other_subject, unlink_subject, merge, rename, dispose,
}
use phus.Identity.Sound.{
  IsSound, update-IsSound, insert_subject-IsSound, insert_new-IsSound, delete_subject-IsSound,
}

choice-IsSound :
    (b : Bool) (x y : SessionIdentityStore × Result)
    → (b ≡ true → IsSound x.0)
    → (b ≡ false → IsSound y.0)
    → IsSound (if b then x else y).0
choice-IsSound true x y h k = h refl
choice-IsSound false x y h k = k refl

if_open-IsSound :
    (s : SessionIdentityStore) (next : SessionIdentityStore × Result)
    → IsSound s
    → IsSound next.0
    → IsSound (if_open s next).0
if_open-IsSound s next h k = choice-IsSound s.closed _ next (λ t. h) (λ f. k)

option-IsSound :
    {A : Type 0} (o : Option A) (x : SessionIdentityStore × Result)
    (f : A → SessionIdentityStore × Result)
    → IsSound x.0
    → ((a : A) → o ≡ some a → IsSound (f a).0)
    → IsSound (elim o as (λ o. SessionIdentityStore × Result) [ none ↦ x | some a ↦ f a ]).0
option-IsSound none x f h k = h
option-IsSound (some a) x f h k = k a refl

create-IsSound :
    (uuid : String) (now : ℕ) (channel subject_id : String) (name : Option String)
    (s : SessionIdentityStore)
    → IsSound s
    → IsSound (create uuid now channel subject_id name s).0
unfolding create insert_both insert_identity insert_subject
create-IsSound uuid now channel subject_id name s h =
    elim (Bool-cases (any (has_row_id uuid) s.identities)) [
      | inl t ↦ rw (t, create) h
      | inr f ↦ elim (Bool-cases (any (has_key channel subject_id) s.subjects)) [
        | inl t ↦ rw (f, t, create) h
        | inr g ↦ rw (f, g, create) (insert_new-IsSound _ _ s refl g h)
      ]
    ]

touch_existing-IsSound :
    (existing : SessionIdentity) (name : Option String) (now : ℕ) (s : SessionIdentityStore)
    → IsSound s
    → IsSound (touch_existing existing name now s).0
touch_existing-IsSound existing none now s h = update-IsSound existing.id _ (λ row. refl) s h
touch_existing-IsSound existing (some name) now s h = update-IsSound existing.id _ (λ row. refl) s h

get_or_create-IsSound :
    (uuid : String) (now : ℕ) (channel subject_id : String) (name : Option String)
    (s : SessionIdentityStore)
    → IsSound s
    → IsSound (get_or_create_by_subject uuid now channel subject_id name s).0
unfolding get_or_create_by_subject
get_or_create-IsSound uuid now channel subject_id name s h = if_open-IsSound s _ h (
    option-IsSound (find_open channel subject_id s) _ _
      (create-IsSound uuid now channel subject_id name s h)
      (λ existing e. touch_existing-IsSound existing _ now s h))

or_ignore-IsSound :
    (row : SubjectRow) (s : SessionIdentityStore)
    → any (has_row_id row.identity_id) s.identities ≡ true
    → IsSound s
    → IsSound (or_ignore (insert_subject row s) s)
unfolding insert_subject
or_ignore-IsSound row s known h =
    elim (Bool-cases (any (has_key row.channel row.subject_id) s.subjects)) [
      | inl t ↦ rw t h
      | inr f ↦ rw f (insert_subject-IsSound row s known f h)
    ]

link_subject-IsSound :
    (id channel subject_id : String) (now : ℕ) (s : SessionIdentityStore)
    → any (has_row_id id) s.identities ≡ true
    → IsSound s
    → IsSound (link_subject id channel subject_id now s).0
unfolding link_subject
link_subject-IsSound id channel subject_id now s known h = if_open-IsSound s _ h (
    option-IsSound (find_open channel subject_id s) _ _
      (update-IsSound id _ (λ row. refl) _ (or_ignore-IsSound _ s known h))
      (λ existing e.
        choice-IsSound (str_eq existing.id id) _ _ (λ t. update-IsSound id _ (λ row. refl) s h)
          (λ f. h)))

get_open-subjects :
    (id : String) (s : SessionIdentityStore) (b : SessionIdentity)
    → get_open id s ≡ some b
    → b.subjects ≡ subjects_for id s
unfolding get_open
get_open-subjects id s b e = elim (Option-cases (find? (has_row_id id) s.identities)) [
  | inl n ↦ absurd (let bad = (rw (n, get_open) at e) in cc)
  | inr (row, f) ↦
      let same : row_to_identity row (subjects_for id s) ≡ b = eq_of_some (rw (f, get_open) at e) in
      sym (ap (λ (i : SessionIdentity). i.subjects) same)
]

-- A subject that remains is a row of the identity with another key.
remaining-row :
    (id channel subject_id : String) (s : SessionIdentityStore)
    → (length (filter (is_other_subject channel subject_id) (subjects_for id s)) == 0) ≡ false
    → any (λ r. is_subject_of id r && not (has_key channel subject_id r)) s.subjects ≡ true
unfolding subjects_for
remaining-row id channel subject_id s h =
    let rows = filter (is_subject_of id) s.subjects in
    let other = is_other_subject channel subject_id in
    sym (any-filter (λ r. not (has_key channel subject_id r)) (is_subject_of id) s.subjects)
    ∙ sym (any-sort linked_before (λ r. other (to_subject r)) rows)
    ∙ sym (any-map other to_subject (sort linked_before rows))
    ∙ any-of_length other (map to_subject (sort linked_before rows)) h

unlink_subject-IsSound :
    (id channel subject_id : String) (s : SessionIdentityStore)
    → IsSound s
    → IsSound (unlink_subject id channel subject_id s).0
unfolding unlink_subject
unlink_subject-IsSound id channel subject_id s h = if_open-IsSound s _ h (
    option-IsSound (get_open id s) _ _ h (λ before e.
      choice-IsSound
        (length (filter (is_other_subject channel subject_id) before.subjects)
          == length before.subjects)
        _ _ (λ t. h)
        (λ f.
          choice-IsSound
            (length (filter (is_other_subject channel subject_id) before.subjects) == 0) _ _
            (λ t. h)
            (λ g.
              delete_subject-IsSound id channel subject_id s
                (remaining-row id channel subject_id s (
                  subst
                    (λ l. (length (filter (is_other_subject channel subject_id) l) == 0) ≡ false)
                    (get_open-subjects id s before e) g))
                h))))

merge-IsSound :
    (source_id target_id : String) (s : SessionIdentityStore)
    → IsSound s
    → IsSound (merge source_id target_id s).0
unfolding merge
merge-IsSound source_id target_id s h = if_open-IsSound s _ h (
    choice-IsSound (str_eq source_id target_id) _ _ (λ t. h)
      (λ f. option-IsSound (get_open source_id s) _ _ h (λ source e.
        option-IsSound (get_open target_id s) _ _ h
          (λ target k. choice-IsSound (length source.subjects == 0) _ _ (λ t. h) (λ g. h)))))

rename-IsSound :
    (id name : String) (now : ℕ) (s : SessionIdentityStore)
    → IsSound s
    → IsSound (rename id name now s).0
unfolding rename
rename-IsSound id name now s h = if_open-IsSound s _ h (update-IsSound id _ (λ row. refl) s h)

-- A call of a method that may change the store.
pub data Command : Type 0 where
  get_or_create : String → ℕ → String → String → Option String → Command
  link : String → String → String → ℕ → Command
  unlink : String → String → String → Command
  merge_into : String → String → Command
  rename_to : String → String → ℕ → Command
  close : Command

abbrev pub do_command : Command → SessionIdentityStore → SessionIdentityStore
do_command (get_or_create uuid now channel subject_id name) s =
    (get_or_create_by_subject uuid now channel subject_id name s).0
do_command (link id channel subject_id now) s = (link_subject id channel subject_id now s).0
do_command (unlink id channel subject_id) s = (unlink_subject id channel subject_id s).0
do_command (merge_into source_id target_id) s = (merge source_id target_id s).0
do_command (rename_to id name now) s = (rename id name now s).0
do_command close s = dispose s

abbrev pub do_all : List Command → SessionIdentityStore → SessionIdentityStore
do_all [] s = s
do_all (c ∷ cs) s = do_all cs (do_command c s)

-- Subjects are linked to identities that are there.
abbrev pub links_known : Command → SessionIdentityStore → Bool
links_known (link id channel subject_id now) s = any (has_row_id id) s.identities
links_known _ s = true

abbrev pub AreKnown : List Command → SessionIdentityStore → Type 0
AreKnown [] s = Unit
AreKnown (c ∷ cs) s = (links_known c s ≡ true) × AreKnown cs (do_command c s)

do_command-IsSound :
    (c : Command) (s : SessionIdentityStore)
    → links_known c s ≡ true
    → IsSound s
    → IsSound (do_command c s)
do_command-IsSound (get_or_create uuid now channel subject_id name) s k h =
    get_or_create-IsSound uuid now channel subject_id name s h
do_command-IsSound (link id channel subject_id now) s k h =
    link_subject-IsSound id channel subject_id now s k h
do_command-IsSound (unlink id channel subject_id) s k h =
    unlink_subject-IsSound id channel subject_id s h
do_command-IsSound (merge_into source_id target_id) s k h = merge-IsSound source_id target_id s h
do_command-IsSound (rename_to id name now) s k h = rename-IsSound id name now s h
do_command-IsSound close s k h = record { bound = h.bound; linked = h.linked; keyed = h.keyed }

-- Over any run of the methods in which linkSubject is called with the id of an identity that is there,
-- a sound store stays sound: the identity of every subject is there, every identity has a
-- subject, and no subject is linked twice.
pub do_all-IsSound :
    (cs : List Command) (s : SessionIdentityStore)
    → AreKnown cs s
    → IsSound s
    → IsSound (do_all cs s)
do_all-IsSound [] s k h = h
do_all-IsSound (c ∷ cs) s (k, ks) h =
    do_all-IsSound cs (do_command c s) ks (do_command-IsSound c s k h)
