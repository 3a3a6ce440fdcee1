-- ===== src/Identity/Linked.antt =====
-- session-identity.ts: what getOrCreateBySubject does in its two cases, told by the query that
-- findBySubject makes.
use phus.Prelude.{
  ℕ, String, ◌≡◌, refl, sym, ap, ◌∙◌, subst, inl, inr, Bool, true, false, ◌&&◌, Option, none, some,
  eq_of_some, List, [], ◌∷◌, ◌++◌, arith, eq_iff, eq_refl, if◌then◌else◌, Bool-cases, Option-cases,
  any, filter, find?, any-append,
}
use text.Mathlib.Text.{◌==◌ as str_eq}
use phus.Prelude.{
  any-filter, any-map, any-find?, find?-holds, find?-of_any, find?-append_none, All-find?,
}
use phus.Prelude.Sort.{sort}
use phus.Prelude.Sort.Stable.{any-sort}
use phus.Identity.{
  IdentitySubject, SessionIdentity, IdentityRow, SubjectRow, SessionIdentityStore, Result,
  has_row_id, is_subject_of, has_key, linked_before, to_subject, subjects_for, row_to_identity,
  get_open, find_open, update, touch_last_seen, touch_display_name, insert_identity, insert_subject,
}
use phus.Identity.Methods.{insert_both, create, touch_existing}
use phus.Identity.Sound.{IsSound, any-update}

abbrev pub is_key : String → String → IdentitySubject → Bool
is_key channel subject_id subject =
    str_eq subject.channel channel && str_eq subject.subject_id subject_id

-- `identity` is that of the row of the subject.
record IsOf (channel subject_id : String) (row : SubjectRow) (identity : SessionIdentity)
    : Type 0 where
  pub same : identity.id ≡ row.identity_id
  pub has_subject : any (is_key channel subject_id) identity.subjects ≡ true

get_open-of_any :
    (id : String) (s : SessionIdentityStore)
    → any (has_row_id id) s.identities ≡ true
    → (b : SessionIdentity) × (get_open id s ≡ some b)
      × (b.id ≡ id)
      × (b.subjects ≡ subjects_for id s)
unfolding get_open
get_open-of_any id s h =
    let (row, e) = find?-of_any (has_row_id id) s.identities h in
    let same : row.id ≡ id =
      (eq_iff row.id id).0 (find?-holds (has_row_id id) s.identities row e) in
    (row_to_identity row (subjects_for id s), (rw (e, get_open) refl), same, refl)

-- The row of a key is one of the subjects of its identity.
any-subjects_for :
    (channel subject_id : String) (s : SessionIdentityStore) (row : SubjectRow)
    → find? (has_key channel subject_id) s.subjects ≡ some row
    → any (is_key channel subject_id) (subjects_for row.identity_id s) ≡ true
unfolding subjects_for
any-subjects_for channel subject_id s row e =
    let rows = filter (is_subject_of row.identity_id) s.subjects in
    let holds = find?-holds (has_key channel subject_id) s.subjects row e in
    any-map (is_key channel subject_id) to_subject (sort linked_before rows)
    ∙ any-sort linked_before (has_key channel subject_id) rows
    ∙ any-filter (has_key channel subject_id) (is_subject_of row.identity_id) s.subjects
    ∙ any-find? (has_key channel subject_id)
        (λ r. is_subject_of row.identity_id r && has_key channel subject_id r) s.subjects row e
        (ground (arith, holds, eq_refl row.identity_id))

-- The identity of a subject row that is found, where the identity is there.
get_open-IsOf :
    (channel subject_id : String) (s : SessionIdentityStore) (row : SubjectRow)
    → find? (has_key channel subject_id) s.subjects ≡ some row
    → any (has_row_id row.identity_id) s.identities ≡ true
    → (b : SessionIdentity) × (get_open row.identity_id s ≡ some b) × IsOf channel subject_id row b
get_open-IsOf channel subject_id s row e known =
    let (b, got, same, subjects) = get_open-of_any row.identity_id s known in
    (
      b,
      got,
      record {
        same = same;
        has_subject =
            ap (any (is_key channel subject_id)) subjects
            ∙ any-subjects_for channel subject_id s row e;
      },
    )

find_open-of :
    (channel subject_id : String) (s : SessionIdentityStore) (row : SubjectRow)
    → find? (has_key channel subject_id) s.subjects ≡ some row
    → find_open channel subject_id s ≡ get_open row.identity_id s
unfolding find_open
find_open-of channel subject_id s row e = rw (e, find_open) refl

-- What is returned has the subject, and the query gives its id in the store after the call, and gave it
-- before, where it gave one.
pub record IsLinked (channel subject_id : String) (before after : SessionIdentityStore)
    (result : Result) : Type 0 where
  pub still : after.closed ≡ before.closed
  pub identity : SessionIdentity
  pub returned : result ≡ inr (some identity)
  pub has_subject : any (is_key channel subject_id) identity.subjects ≡ true
  pub later : SessionIdentity
  pub found : find_open channel subject_id after ≡ some later
  pub same : later.id ≡ identity.id
  pub kept :
      (old : SessionIdentity)
      → find_open channel subject_id before ≡ some old
      → identity.id ≡ old.id

-- A store with the subjects of `s` and no fewer identities.
find_open-later :
    (channel subject_id : String) (s t : SessionIdentityStore) (row : SubjectRow)
    → find? (has_key channel subject_id) s.subjects ≡ some row
    → t.subjects ≡ s.subjects
    → any (has_row_id row.identity_id) t.identities ≡ true
    → (b : SessionIdentity) × (find_open channel subject_id t ≡ some b)
      × (get_open row.identity_id t ≡ some b)
      × IsOf channel subject_id row b
find_open-later channel subject_id s t row e same known =
    let f : find? (has_key channel subject_id) t.subjects ≡ some row =
      ap (find? (has_key channel subject_id)) same ∙ e in
    let (b, got, of) = get_open-IsOf channel subject_id t row f known in
    (b, (find_open-of channel subject_id t row f ∙ got), got, of)

touch_existing-IsLinked :
    (channel subject_id : String) (name : Option String) (now : ℕ) (s : SessionIdentityStore)
    (row : SubjectRow) (b : SessionIdentity)
    → find? (has_key channel subject_id) s.subjects ≡ some row
    → any (has_row_id row.identity_id) s.identities ≡ true
    → find_open channel subject_id s ≡ some b
    → IsOf channel subject_id row b
    → IsLinked channel subject_id s (touch_existing b name now s).0 (touch_existing b name now s).1
unfolding update
touch_existing-IsLinked channel subject_id none now s row b e known found of =
    let (later, l, got, lof) =
      find_open-later channel subject_id s (touch_last_seen b.id now s) row e refl
        (any-update b.id _ (λ r. refl) row.identity_id s.identities ∙ known) in
    record {
      still = refl;
      identity = b;
      returned = refl;
      has_subject = of.has_subject;
      later = later;
      found = l;
      same = lof.same ∙ sym of.same;
      kept = λ old k. ap (λ (i : SessionIdentity). i.id) (eq_of_some (sym found ∙ k));
    }
touch_existing-IsLinked channel subject_id (some name) now s row b e known found of =
    let t = touch_display_name b.id name now s in
    let (later, l, got, lof) =
      find_open-later channel subject_id s t row e refl
        (any-update b.id _ (λ r. refl) row.identity_id s.identities ∙ known) in
    record {
      still = refl;
      identity = later;
      returned = ap inr (ap (λ i. get_open i t) of.same ∙ got);
      has_subject = lof.has_subject;
      later = later;
      found = l;
      same = refl;
      kept = λ old k.
          lof.same ∙ sym of.same ∙ ap (λ (i : SessionIdentity). i.id) (eq_of_some (sym found ∙ k));
    }

any-last :
    {A : Type 0} (p : A → Bool) (xs : List A) (x : A) → p x ≡ true → any p (xs ++ x ∷ []) ≡ true
any-last p xs x h = ground (arith, any-append p xs (x ∷ []))

find?-last :
    {A : Type 0} (p : A → Bool) (xs : List A) (x : A)
    → any p xs ≡ false
    → p x ≡ true
    → find? p (xs ++ x ∷ []) ≡ some x
find?-last p xs x h k = find?-append_none p xs (x ∷ []) h ∙ (ground (arith, k))

pub create-IsLinked :
    (uuid : String) (now : ℕ) (channel subject_id : String) (name : Option String)
    (s : SessionIdentityStore)
    → any (has_row_id uuid) s.identities ≡ false
    → any (has_key channel subject_id) s.subjects ≡ false
    → find_open channel subject_id s ≡ none
    → IsLinked channel subject_id s
        (create uuid now channel subject_id name s).0
        (create uuid now channel subject_id name s).1
unfolding create insert_both insert_identity insert_subject
create-IsLinked uuid now channel subject_id name s new free absent =
    let row : SubjectRow = record {
      identity_id = uuid;
      channel = channel;
      subject_id = subject_id;
      linked_at = now;
    } in
    let identity : IdentityRow = record {
      id = uuid;
      primary_channel = channel;
      primary_subject = subject_id;
      display_name = name;
      created_at = now;
      updated_at = now;
      last_seen_at = none;
    } in
    let t : SessionIdentityStore = record s {
      identities = s.identities ++ identity ∷ [];
      subjects = s.subjects ++ row ∷ [];
    } in
    let found : find? (has_key channel subject_id) t.subjects ≡ some row =
      find?-last (has_key channel subject_id) s.subjects row free
        (ground (arith, eq_refl channel, eq_refl subject_id)) in
    let known : any (has_row_id uuid) t.identities ≡ true =
      any-last (has_row_id uuid) s.identities identity (eq_refl uuid) in
    let (b, l, got, of) = find_open-later channel subject_id t t row found refl known in
    rw (new, free, create)
      (record {
        still = refl;
        identity = b;
        returned = ap inr got;
        has_subject = of.has_subject;
        later = b;
        found = l;
        same = refl;
        kept = λ old k. absurd (let bad = sym absent ∙ k in cc);
      })

-- In a sound store a subject has no identity only where it has no row.
pub absent-any :
    (channel subject_id : String) (s : SessionIdentityStore)
    → IsSound s
    → find_open channel subject_id s ≡ none
    → any (has_key channel subject_id) s.subjects ≡ false
absent-any channel subject_id s sound absent =
    elim (Bool-cases (any (has_key channel subject_id) s.subjects)) [
      | inr f ↦ f
      | inl t ↦
          let (row, e) = find?-of_any (has_key channel subject_id) s.subjects t in
          let known = All-find? _ (has_key channel subject_id) s.subjects row sound.bound e in
          let (b, l, got, of) = find_open-later channel subject_id s s row e refl known in
          absurd (let bad = sym absent ∙ l in cc)
    ]

found-row :
    (channel subject_id : String) (s : SessionIdentityStore) (b : SessionIdentity)
    → find_open channel subject_id s ≡ some b
    → (row : SubjectRow) × (find? (has_key channel subject_id) s.subjects ≡ some row)
unfolding find_open
found-row channel subject_id s b e =
    elim (Option-cases (find? (has_key channel subject_id) s.subjects)) [
      | inl n ↦ absurd (let bad = (rw (n, find_open) at e) in cc)
      | inr found ↦ found
    ]

pub existing-IsLinked :
    (channel subject_id : String) (name : Option String) (now : ℕ) (s : SessionIdentityStore)
    (b : SessionIdentity)
    → IsSound s
    → find_open channel subject_id s ≡ some b
    → IsLinked channel subject_id s (touch_existing b name now s).0 (touch_existing b name now s).1
existing-IsLinked channel subject_id name now s b sound found =
    let (row, e) = found-row channel subject_id s b found in
    let known = All-find? _ (has_key channel subject_id) s.subjects row sound.bound e in
    let (c, l, got, of) = find_open-later channel subject_id s s row e refl known in
    touch_existing-IsLinked channel subject_id name now s row b e known found
      (subst (IsOf channel subject_id row) (eq_of_some (sym l ∙ found)) of)

pub option-IsLinked :
    (channel subject_id : String) (s : SessionIdentityStore) (o : Option SessionIdentity)
    (x : SessionIdentityStore × Result) (f : SessionIdentity → SessionIdentityStore × Result)
    → (o ≡ none → IsLinked channel subject_id s x.0 x.1)
    → ((b : SessionIdentity) → o ≡ some b → IsLinked channel subject_id s (f b).0 (f b).1)
    → IsLinked channel subject_id s
        (elim o as (λ o. SessionIdentityStore × Result) [ none ↦ x | some b ↦ f b ]).0
        (elim o as (λ o. SessionIdentityStore × Result) [ none ↦ x | some b ↦ f b ]).1
option-IsLinked channel subject_id s none x f h k = h refl
option-IsLinked channel subject_id s (some b) x f h k = k b refl

pub if-false : {A : Type 0} (b : Bool) (x y : A) → b ≡ false → y ≡ (if b then x else y)
if-false b x y h = rw h refl
