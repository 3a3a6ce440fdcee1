-- ===== src/TuiState/Reducer/Streams.antt =====
-- state.ts: the deltas of a turn become one message.
use phus.Prelude.{
  String, ◌≡◌, refl, sym, ap, ◌∙◌, Bool, true, false, Option, none, some, List, [], ◌∷◌, ◌++◌, map,
  arith, if◌then◌else◌, any, All,
}
use Prim.Native.String.{◌++◌ as concat}
use text.Mathlib.Text.{◌==◌ as str_eq}
use text.Mathlib.TextLemmas.{append_assoc as concat_assoc}
use phus.TuiState.{assistant, ChatItem, AppState, Fresh, with_scroll_on_new_content}
use phus.TuiState.Items
use phus.TuiState.Items.{
  change_last, or_else, extend, new_item, is_streaming_assistant, with_items, finalize_item,
}
use phus.TuiState.Reducer.{AppAction, append_delta, append_thinking, finalize_streaming, reduce}

-- What a model streams.
pub data Delta : Type 0 where
  said thought : String → Delta

abbrev pub action_of : {J : Type 0} → Delta → AppAction J
action_of (said t) = append_delta t
action_of (thought t) = append_thinking t

abbrev pub content : Delta → String
content (said t) = t
content (thought t) = t

-- The texts of the deltas, put together; nothing where there is none.
abbrev pub joined_text : List Delta → Option String
joined_text [] = none
joined_text (said t ∷ ds) = some (elim (joined_text ds) [ none ↦ t | some rest ↦ concat t rest ])
joined_text (thought t ∷ ds) = joined_text ds

abbrev pub joined_thinking : List Delta → Option String
joined_thinking [] = none
joined_thinking (thought t ∷ ds) =
    some (elim (joined_thinking ds) [ none ↦ t | some rest ↦ concat t rest ])
joined_thinking (said t ∷ ds) = joined_thinking ds

-- What is there, with more behind it.
abbrev pub followed_by : Option String → Option String → Option String
followed_by old none = old
followed_by none (some more) = some more
followed_by (some old) (some more) = some (concat old more)

abbrev pub deltas : List (Delta × Fresh) → List Delta
deltas ds = map (λ d. d.0) ds

extend-followed_by :
    (old : Option String) (t : String) (rest : Option String)
    → followed_by (some (extend old t)) rest
      ≡ followed_by old (some (elim rest [ none ↦ t | some r ↦ concat t r ]))
extend-followed_by none t none = refl
extend-followed_by none t (some r) = refl
extend-followed_by (some s) t none = refl
extend-followed_by (some s) t (some r) = ap some (concat_assoc s t r)

followed_by-none : (old : Option String) → followed_by old none ≡ old
followed_by-none none = refl
followed_by-none (some s) = refl

first-followed_by :
    (t : String) (rest : Option String)
    → followed_by (some t) rest ≡ some (elim rest [ none ↦ t | some r ↦ concat t r ])
first-followed_by t none = refl
first-followed_by t (some r) = refl

none-followed_by : (rest : Option String) → followed_by none rest ≡ rest
none-followed_by none = refl
none-followed_by (some r) = refl

module _ {J : Type 0} where
  abbrev pub stream : List (Delta × Fresh) → AppState J → AppState J
  stream [] state = state
  stream ((d, fresh) ∷ ds) state = stream ds (reduce (action_of d) fresh state)

  items-with_scroll : (state : AppState J) → (with_scroll_on_new_content state).items ≡ state.items
  unfolding with_scroll_on_new_content
  items-with_scroll state = ground arith

  change_last-append :
      (p : ChatItem J → Bool) (f : ChatItem J → ChatItem J) (xs : List (ChatItem J))
      (x : ChatItem J)
      → change_last p f (xs ++ x ∷ []) ≡ (if p x then some (xs ++ f x ∷ []) else none)
  unfolding change_last
  change_last-append p f [] x = refl
  change_last-append p f (y ∷ []) x = ground arith
  change_last-append p f (y ∷ z ∷ xs) x = ground (arith, change_last-append p f (z ∷ xs) x)

  -- Neither a streaming message nor anything behind it.
  not_streaming-change_last :
      (f : ChatItem J → ChatItem J) (xs : List (ChatItem J))
      → any is_streaming_assistant xs ≡ false
      → change_last is_streaming_assistant f xs ≡ none
  unfolding change_last
  not_streaming-change_last f [] h = refl
  not_streaming-change_last f (x ∷ []) h = ground (arith, h)
  not_streaming-change_last f (x ∷ y ∷ xs) h =
      ground (arith, h, not_streaming-change_last f (y ∷ xs))

  -- The message with one more delta.
  abbrev add_delta : Delta → ChatItem J → ChatItem J
  add_delta (said t) it = record it { text = some (extend it.text t) }
  add_delta (thought t) it = record it { reasoning = some (extend it.reasoning t) }

  abbrev first_item : Delta → Fresh → ChatItem J
  first_item (said t) fresh = record (new_item fresh assistant) {
    text = some t;
    is_streaming = some true;
  }
  first_item (thought t) fresh = record (new_item fresh assistant) {
    reasoning = some t;
    is_streaming = some true;
  }

  items-reduce :
      (d : Delta) (fresh : Fresh) (state : AppState J)
      → str_eq (content d) "" ≡ false
      → (reduce (action_of d) fresh state).items
        ≡ or_else
            (change_last is_streaming_assistant (add_delta d) state.items)
            (state.items ++ first_item d fresh ∷ [])
  unfolding Items.append_delta Items.append_thinking
  items-reduce (said t) fresh state h = rw h (items-with_scroll _)
  items-reduce (thought t) fresh state h = rw h (items-with_scroll _)

  -- The deltas, gathered in one message.
  abbrev gathered : List (Delta × Fresh) → ChatItem J → ChatItem J
  gathered ds it = record it {
    text = followed_by it.text (joined_text (deltas ds));
    reasoning = followed_by it.reasoning (joined_thinking (deltas ds));
  }

  gathered-cons :
      (d : Delta) (fresh : Fresh) (ds : List (Delta × Fresh)) (it : ChatItem J)
      → gathered ds (add_delta d it) ≡ gathered ((d, fresh) ∷ ds) it
  gathered-cons (said t) fresh ds it =
      ap
        (λ u. record it {
          text = u;
          reasoning = followed_by it.reasoning (joined_thinking (deltas ds));
        })
        (extend-followed_by it.text t (joined_text (deltas ds)))
  gathered-cons (thought t) fresh ds it =
      ap (λ u. record it { text = followed_by it.text (joined_text (deltas ds)); reasoning = u })
        (extend-followed_by it.reasoning t (joined_thinking (deltas ds)))

  add_delta-streams :
      (d : Delta) (it : ChatItem J)
      → is_streaming_assistant it ≡ true
      → is_streaming_assistant (add_delta d it) ≡ true
  add_delta-streams (said t) it h = h
  add_delta-streams (thought t) it h = h

  stream-gathered :
      (ds : List (Delta × Fresh)) (state : AppState J) (xs : List (ChatItem J)) (it : ChatItem J)
      → All (λ d. str_eq (content d.0) "" ≡ false) ds
      → is_streaming_assistant it ≡ true
      → state.items ≡ xs ++ it ∷ []
      → (stream ds state).items ≡ xs ++ gathered ds it ∷ []
  stream-gathered [] state xs it h s e =
      e
      ∙ ap (λ i. xs ++ i ∷ [])
          (sym (
            ap (λ u. record it { text = u; reasoning = followed_by it.reasoning none })
              (followed_by-none it.text)
            ∙ ap (λ u. record it { reasoning = u }) (followed_by-none it.reasoning)))
  stream-gathered ((d, fresh) ∷ ds) state xs it (n, h) s e =
      let next : (reduce (action_of d) fresh state).items ≡ xs ++ add_delta d it ∷ [] =
        items-reduce d fresh state n
        ∙ ap
            (λ l.
              or_else (change_last is_streaming_assistant (add_delta d) l)
                (l ++ first_item d fresh ∷ []))
            e
        ∙ ap (λ o. or_else o ((xs ++ it ∷ []) ++ first_item d fresh ∷ []))
            (change_last-append is_streaming_assistant (add_delta d) xs it
              ∙ ap (λ b. if b then some (xs ++ add_delta d it ∷ []) else none) s) in
      stream-gathered ds (reduce (action_of d) fresh state) xs (add_delta d it) h
        (add_delta-streams d it s) next
      ∙ ap (λ i. xs ++ i ∷ []) (gathered-cons d fresh ds it)

  -- The message of a whole turn.
  abbrev pub message_of : List (Delta × Fresh) → Fresh → ChatItem J
  message_of ds fresh = record (new_item fresh assistant) {
    text = joined_text (deltas ds);
    reasoning = joined_thinking (deltas ds);
    is_streaming = some false;
  }

  abbrev streaming : ChatItem J → ChatItem J
  streaming it = record it { is_streaming = some true }

  gathered-first :
      (d : Delta) (fresh : Fresh) (ds : List (Delta × Fresh))
      → gathered ds (first_item d fresh) ≡ streaming (message_of ((d, fresh) ∷ ds) fresh)
  gathered-first (said t) fresh ds =
      ap
        (λ u. record (new_item fresh assistant) {
          text = u;
          reasoning = followed_by none (joined_thinking (deltas ds));
          is_streaming = some true;
        })
        (first-followed_by t (joined_text (deltas ds)))
      ∙ ap
          (λ u. record (new_item fresh assistant) {
            text = joined_text (deltas ((said t, fresh) ∷ ds));
            reasoning = u;
            is_streaming = some true;
          })
          (none-followed_by (joined_thinking (deltas ds)))
  gathered-first (thought t) fresh ds =
      ap
        (λ u. record (new_item fresh assistant) {
          text = followed_by none (joined_text (deltas ds));
          reasoning = u;
          is_streaming = some true;
        })
        (first-followed_by t (joined_thinking (deltas ds)))
      ∙ ap
          (λ u. record (new_item fresh assistant) {
            text = u;
            reasoning = joined_thinking (deltas ((thought t, fresh) ∷ ds));
            is_streaming = some true;
          })
          (none-followed_by (joined_text (deltas ds)))

  first_item-streams :
      (d : Delta) (fresh : Fresh) (it : ChatItem J)
      → it ≡ first_item d fresh
      → is_streaming_assistant it ≡ true
  first_item-streams (said t) fresh it e = ap is_streaming_assistant e
  first_item-streams (thought t) fresh it e = ap is_streaming_assistant e

  finalize-append :
      (xs ys : List (ChatItem J))
      → any is_streaming_assistant xs ≡ false
      → map finalize_item (xs ++ ys) ≡ xs ++ map finalize_item ys
  finalize-append [] ys h = refl
  finalize-append (x ∷ xs) ys h = ground (arith, h, finalize-append xs ys)

  -- In a turn that starts with no message streaming, the deltas that are not empty become one
  -- message behind the older items, which stay as they are; it has the texts of the answer and of the
  -- thinking, each put together in order, and is no longer streaming when the turn is finalized.
  pub stream-turn :
      (d : Delta) (fresh end : Fresh) (ds : List (Delta × Fresh)) (state : AppState J)
      → any is_streaming_assistant state.items ≡ false
      → All (λ d. str_eq (content d.0) "" ≡ false) ((d, fresh) ∷ ds)
      → (reduce finalize_streaming end (stream ((d, fresh) ∷ ds) state)).items
        ≡ state.items ++ message_of ((d, fresh) ∷ ds) fresh ∷ []
  unfolding Items.finalize_streaming
  stream-turn d fresh end ds state idle (n, h) =
      let first : (reduce (action_of d) fresh state).items
          ≡ state.items ++ first_item d fresh ∷ [] =
        items-reduce d fresh state n
        ∙ ap (λ o. or_else o (state.items ++ first_item d fresh ∷ []))
            (not_streaming-change_last (add_delta d) state.items idle) in
      let whole =
        stream-gathered ds (reduce (action_of d) fresh state) state.items (first_item d fresh) h
          (first_item-streams d fresh (first_item d fresh) refl) first in
      ap (map finalize_item) (whole ∙ ap (λ i. state.items ++ i ∷ []) (gathered-first d fresh ds))
      ∙ finalize-append state.items (streaming (message_of ((d, fresh) ∷ ds) fresh) ∷ []) idle
