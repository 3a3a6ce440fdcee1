-- ===== src/Identity/Methods.antt =====
-- session-identity.ts: the methods of SessionIdentityStore. Beside its result, a method gives the
-- store that it leaves.
use phus.Prelude.{
  ℕ, String, inl, inr, Bool, true, false, not, ◌&&◌, ◌||◌, Option, none, some, List, [], map, ◌==◌,
  if◌then◌else◌, length, filter,
}
use text.Mathlib.Text.{◌==◌ as str_eq}
use phus.Prelude.Sort.{sort}
use phus.Identity.{
  IdentitySubject, SessionIdentity, IdentityRow, SubjectRow, SessionIdentityStore, store_closed,
  self_merge, identity_not_found, source_not_found, target_not_found, identity_merge_conflict,
  unique_constraint, values_for_columns, Result, is_subject_of, has_key, created_before,
  identity_of, get_open, find_open, update, touch_display_name, touch_last_seen, insert_identity,
  insert_subject,
}

abbrev pub empty_store : SessionIdentityStore
empty_store = record { identities = []; subjects = []; closed = false }

-- `assertOpen`
abbrev pub if_open :
    SessionIdentityStore → SessionIdentityStore × Result → SessionIdentityStore × Result
if_open s next = if s.closed then (s, inl store_closed) else next

abbrev pub get : String → SessionIdentityStore → SessionIdentityStore × Result
get id s = if_open s (s, inr (get_open id s))

abbrev pub find_by_subject : String → String → SessionIdentityStore → SessionIdentityStore × Result
find_by_subject channel subject_id s = if_open s (s, inr (find_open channel subject_id s))

-- The `catch` of `create`, on the tables as they were.
abbrev pub race_winner : Option SessionIdentity → Result
race_winner none = inl unique_constraint
race_winner (some winner) = inr (some winner)

-- The transaction of `create`.
unfoldable pub insert_both :
    IdentityRow → SubjectRow → SessionIdentityStore → Option SessionIdentityStore
insert_both identity subject s = elim (insert_identity identity s) [
  | none ↦ none
  | some t ↦ insert_subject subject t
]

unfoldable pub create :
    String
    → ℕ
    → String
    → String
    → Option String
    → SessionIdentityStore
    → SessionIdentityStore × Result
create uuid now channel subject_id display_name s =
    let identity : IdentityRow = record {
      id = uuid;
      primary_channel = channel;
      primary_subject = subject_id;
      display_name = display_name;
      created_at = now;
      updated_at = now;
      last_seen_at = none;
    } in
    let subject : SubjectRow = record {
      identity_id = uuid;
      channel = channel;
      subject_id = subject_id;
      linked_at = now;
    } in
    elim (insert_both identity subject s) [
      | none ↦ (s, race_winner (find_open channel subject_id s))
      | some t ↦ (t, inr (get_open uuid t))
    ]

-- `displayName && displayName !== existing.displayName`, with the new name.
abbrev pub new_name : Option String → Option String → Option String
new_name none old = none
new_name (some name) none = if str_eq name "" then none else some name
new_name (some name) (some old) = if str_eq name "" || str_eq name old then none else some name

abbrev pub touch_existing :
    SessionIdentity → Option String → ℕ → SessionIdentityStore → SessionIdentityStore × Result
touch_existing existing none now s = (touch_last_seen existing.id now s, inr (some existing))
touch_existing existing (some name) now s =
    let t = touch_display_name existing.id name now s in (t, inr (get_open existing.id t))

unfoldable pub get_or_create_by_subject :
    String
    → ℕ
    → String
    → String
    → Option String
    → SessionIdentityStore
    → SessionIdentityStore × Result
get_or_create_by_subject uuid now channel subject_id display_name s =
    if_open s (elim (find_open channel subject_id s) [
      | none ↦ create uuid now channel subject_id display_name s
      | some existing ↦ touch_existing existing (new_name display_name existing.display_name) now s
    ])

-- `INSERT OR IGNORE`
abbrev pub or_ignore : Option SessionIdentityStore → SessionIdentityStore → SessionIdentityStore
or_ignore none s = s
or_ignore (some t) s = t

unfoldable pub link_subject :
    String → String → String → ℕ → SessionIdentityStore → SessionIdentityStore × Result
link_subject id channel subject_id now s = if_open s (elim (find_open channel subject_id s) [
  | some existing ↦
      if str_eq existing.id id
      then (touch_last_seen id now s, inr (some existing))
      else (s, inl (identity_merge_conflict id channel subject_id))
  | none ↦
      let row : SubjectRow = record {
        identity_id = id;
        channel = channel;
        subject_id = subject_id;
        linked_at = now;
      } in
      let t = touch_last_seen id now (or_ignore (insert_subject row s) s) in
      (t, inr (get_open id t))
])

abbrev pub is_other_subject : String → String → IdentitySubject → Bool
is_other_subject channel subject_id subject =
    not (str_eq subject.channel channel && str_eq subject.subject_id subject_id)

-- `DELETE FROM session_identity_subjects WHERE identity_id = ? AND channel = ? AND subject_id = ?`
abbrev pub delete_subject : String → String → String → SessionIdentityStore → SessionIdentityStore
delete_subject id channel subject_id s = record s {
  subjects =
      filter (λ row. not (is_subject_of id row && has_key channel subject_id row)) s.subjects;
}

-- `unlinkSubject` of an identity that is there, by its subjects that remain.
abbrev pub unlink_remaining :
    String
    → String
    → String
    → SessionIdentity
    → List IdentitySubject
    → SessionIdentityStore
    → SessionIdentityStore × Result
unlink_remaining id channel subject_id before remaining s =
    if length remaining == length before.subjects
    then (s, inr (some before))
    else (if length remaining == 0
        then (s, inl (identity_merge_conflict id channel subject_id))
        else (let t = delete_subject id channel subject_id s in (t, inr (get_open id t))))

unfoldable pub unlink_subject :
    String → String → String → SessionIdentityStore → SessionIdentityStore × Result
unlink_subject id channel subject_id s = if_open s (elim (get_open id s) [
  | none ↦ (s, inl (identity_not_found id))
  | some before ↦
      unlink_remaining id channel subject_id before
        (filter (is_other_subject channel subject_id) before.subjects) s
])

-- The first statement that `merge` prepares has seven values for four columns, which SQLite refuses.
abbrev pub merge_found :
    String → SessionIdentity → SessionIdentityStore → SessionIdentityStore × Result
merge_found source_id source s =
    if length source.subjects == 0
    then (
      s,
      inl (identity_merge_conflict source_id source.primary_channel source.primary_subject_id),
    )
    else (s, inl values_for_columns)

unfoldable pub merge : String → String → SessionIdentityStore → SessionIdentityStore × Result
merge source_id target_id s = if_open s (
    if str_eq source_id target_id then (s, inl self_merge) else elim (get_open source_id s) [
      | none ↦ (s, inl (source_not_found source_id))
      | some source ↦ elim (get_open target_id s) [
        | none ↦ (s, inl (target_not_found target_id))
        | some target ↦ merge_found source_id source s
      ]
    ])

unfoldable pub rename : String → String → ℕ → SessionIdentityStore → SessionIdentityStore × Result
rename id display_name now s =
    let t =
      update id (λ row. record row { display_name = some display_name; updated_at = now }) s in
    if_open s (t, inr (get_open id t))

-- `none` where the store is closed.
unfoldable pub list : SessionIdentityStore → Option (List SessionIdentity)
list s = if s.closed then none else some (map (identity_of s) (sort created_before s.identities))

abbrev pub dispose : SessionIdentityStore → SessionIdentityStore
dispose s = record s { closed = true }
