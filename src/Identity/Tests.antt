-- ===== src/Identity/Tests.antt =====
-- Runs of the store of identities, and its theorems at concrete stores.
use phus.Prelude.{◌≡◌, refl, inl, none, some, List, [], ◌∷◌}
use phus.Prelude.Sort.{sort, insert}
use phus.Identity.{
  SessionIdentityStore, unique_constraint, values_for_columns, subjects_for, get_open, find_open,
  update, insert_identity, insert_subject,
}
use phus.Identity.Methods.{
  empty_store, insert_both, create, get_or_create_by_subject, link_subject, merge,
}
use phus.Identity.Sound.{IsSound}
use phus.Identity.Kept.{
  Command, get_or_create, link, unlink, merge_into, rename_to, do_all, AreKnown, do_all-IsSound,
}
use phus.Identity.Bound.{IsBound, get_or_create-IsBound}

abbrev commands : List Command
commands =
    get_or_create "u1" 1 "telegram" "7" (some "Ann")
    ∷ link "u1" "slack" "ann" 2
    ∷ get_or_create "u2" 3 "discord" "bob" none
    ∷ merge_into "u2" "u1"
    ∷ unlink "u1" "telegram" "7"
    ∷ unlink "u1" "slack" "ann"
    ∷ rename_to "u2" "Bob" 4
    ∷ []

abbrev store : SessionIdentityStore
store = do_all commands empty_store

empty-IsSound : IsSound empty_store
empty-IsSound = record { bound = tt; linked = tt; keyed = tt }

commands-AreKnown : AreKnown commands empty_store
unfolding get_or_create_by_subject find_open create insert_both insert_identity insert_subject
commands-AreKnown = (refl, (refl, (refl, (refl, (refl, (refl, (refl, tt)))))))

do_all-IsSound_example : IsSound store
do_all-IsSound_example = do_all-IsSound commands empty_store commands-AreKnown empty-IsSound

abbrev one : SessionIdentityStore
one = do_all (get_or_create "u1" 1 "telegram" "7" (some "Ann") ∷ []) empty_store

get_or_create-IsBound_example :
    IsBound "telegram" "7" empty_store
      (get_or_create_by_subject "u1" 1 "telegram" "7" (some "Ann") empty_store).0
      (get_or_create_by_subject "u1" 1 "telegram" "7" (some "Ann") empty_store).1
get_or_create-IsBound_example =
    get_or_create-IsBound "u1" 1 "telegram" "7" (some "Ann") empty_store refl refl empty-IsSound

-- A merge of two identities fails, whatever they are.
abbrev two : SessionIdentityStore
two =
    do_all (get_or_create "u1" 1 "telegram" "7" none ∷ get_or_create "u2" 2 "slack" "ann" none ∷ [])
      empty_store

merge_fails : (merge "u2" "u1" two).1 ≡ inl values_for_columns
unfolding merge get_or_create_by_subject find_open create insert_both insert_identity insert_subject
    get_open subjects_for sort insert
merge_fails = refl

-- A subject that is linked to an id that no identity has can never get one.
abbrev ghost : SessionIdentityStore
ghost = (link_subject "nobody" "slack" "ann" 1 empty_store).0

locks_out : (get_or_create_by_subject "u3" 2 "slack" "ann" none ghost).1 ≡ inl unique_constraint
unfolding get_or_create_by_subject link_subject find_open create insert_both insert_identity
    insert_subject get_open update
locks_out = refl
