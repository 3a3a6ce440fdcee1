-- ===== src/Identity/Bound.antt =====
-- session-identity.ts: getOrCreateBySubject gives the identity to which the subject is linked.
use phus.Prelude.{ℕ, String, ◌≡◌, refl, sym, ap, ◌∙◌, subst, inr, true, false, Option, some, any}
use phus.Identity.{SessionIdentity, SessionIdentityStore, Result, has_row_id, find_open}
use phus.Identity.Methods.{new_name, find_by_subject, get_or_create_by_subject}
use phus.Identity.Sound.{IsSound}
use phus.Identity.Linked.{
  is_key, IsLinked, create-IsLinked, absent-any, existing-IsLinked, option-IsLinked, if-false,
}

pub record IsBound (channel subject_id : String) (before after : SessionIdentityStore)
    (result : Result) : Type 0 where
  pub identity : SessionIdentity
  pub returned : result ≡ inr (some identity)
  -- The subject is one of those of the identity,
  pub has_subject : any (is_key channel subject_id) identity.subjects ≡ true
  -- whose id is that of the one which findBySubject gives in the store after the call,
  pub later : SessionIdentity
  pub found : find_by_subject channel subject_id after ≡ (after, inr (some later))
  pub same : later.id ≡ identity.id
  -- and of the one that it gave before the call, where it gave one.
  pub kept :
      (old : SessionIdentity)
      → find_by_subject channel subject_id before ≡ (before, inr (some old))
      → identity.id ≡ old.id

find_by_subject-opened :
    (channel subject_id : String) (s : SessionIdentityStore)
    → s.closed ≡ false
    → find_by_subject channel subject_id s ≡ (s, inr (find_open channel subject_id s))
find_by_subject-opened channel subject_id s opened = rw opened refl

linked-IsBound :
    (channel subject_id : String) (before after : SessionIdentityStore) (result : Result)
    → before.closed ≡ false
    → IsLinked channel subject_id before after result
    → IsBound channel subject_id before after result
linked-IsBound channel subject_id before after result opened i = record {
  identity = i.identity;
  returned = i.returned;
  has_subject = i.has_subject;
  later = i.later;
  found =
      find_by_subject-opened channel subject_id after (i.still ∙ opened)
      ∙ ap (λ o. (after, inr o)) i.found;
  same = i.same;
  kept = λ old k.
      let e = sym (find_by_subject-opened channel subject_id before opened) ∙ k in
      let same_right = ap (λ (r : SessionIdentityStore × Result). r.1) e in
      i.kept old (cc same_right);
}

-- In a sound store that is open, with an id for a new identity that none has: getOrCreateBySubject
-- returns an identity that has the subject; in the store after the call findBySubject gives an
-- identity with the same id, as it did before the call, where it gave one.
pub get_or_create-IsBound :
    (uuid : String) (now : ℕ) (channel subject_id : String) (name : Option String)
    (s : SessionIdentityStore)
    → s.closed ≡ false
    → any (has_row_id uuid) s.identities ≡ false
    → IsSound s
    → IsBound channel subject_id s
        (get_or_create_by_subject uuid now channel subject_id name s).0
        (get_or_create_by_subject uuid now channel subject_id name s).1
unfolding get_or_create_by_subject
get_or_create-IsBound uuid now channel subject_id name s opened new sound =
    linked-IsBound channel subject_id s _ _ opened (
      subst (λ (r : SessionIdentityStore × Result). IsLinked channel subject_id s r.0 r.1)
        (if-false s.closed _ _ opened)
        (option-IsLinked channel subject_id s (find_open channel subject_id s) _ _
          (λ absent.
            create-IsLinked uuid now channel subject_id name s new
              (absent-any channel subject_id s sound absent) absent)
          (λ b found.
            existing-IsLinked channel subject_id (new_name name b.display_name) now s b sound
              found)))
