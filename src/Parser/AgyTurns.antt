-- ===== src/Parser/AgyTurns.antt =====
-- Which turns internal/parser/agy/agy.go makes of a conversation.
use assaio.Prelude.{
  ℕ, ◌≡◌, refl, String, Bool, false, not, ◌||◌, Bool-cases, inl, inr, List, [], ◌∷◌, Option, none,
  some, ◌==◌, str_eq, any_of, All, arith,
}
use assaio.Prelude.Int.{eq_ℤ}
use assaio.Usage.{Record}
use assaio.Parser.Agy.{
  Line, Decoder, Pass, open_record, add_tool_calls, fold_last, fold_entry, take_dated, take_turn,
  take_line, read_line, read_lines, new_pass, parse_transcript,
}

-- Neighbours are of different instants.
abbrev pub ApartFrom : Record → List Record → Type 0
ApartFrom r [] = Unit
ApartFrom r (x ∷ xs) = ((r.timestamp == x.timestamp) ≡ false) × ApartFrom x xs

abbrev pub AreApart : List Record → Type 0
AreApart [] = Unit
AreApart (r ∷ rs) = ApartFrom r rs

-- A turn of the conversation, at an instant.
abbrev pub IsTurn : String → Record → Type 0
IsTurn conversation r =
    (r.session_id ≡ conversation)
    × (((r.timestamp == 0) ≡ false) × (str_eq conversation "" ≡ false))

pub record IsConversation (conversation : String) (rs : List Record) : Type 0 where
  pub apart : AreApart rs
  pub turns : All (IsTurn conversation) rs

fold_last-Apart :
    (l : Line) (new r : Record) (rs : List Record)
    → ApartFrom r rs
    → (p : Record) → ((p.timestamp == r.timestamp) ≡ false)
    → ApartFrom p (fold_last l new r rs)
unfolding fold_last add_tool_calls
fold_last-Apart l new r [] a p h = elim (Bool-cases (r.timestamp == new.timestamp)) [
  | inl e ↦ rw e (h, tt)
  | inr e ↦ rw e (h, (e, tt))
]
fold_last-Apart l new r (x ∷ xs) a p h = (h, fold_last-Apart l new x xs a.1 r a.0)

fold_last_apart :
    (l : Line) (new r : Record) (rs : List Record)
    → ApartFrom r rs
    → AreApart (fold_last l new r rs)
unfolding fold_last add_tool_calls
fold_last_apart l new r [] a = elim (Bool-cases (r.timestamp == new.timestamp)) [
  | inl e ↦ rw e tt
  | inr e ↦ rw e (e, tt)
]
fold_last_apart l new r (x ∷ xs) a = fold_last-Apart l new x xs a.1 r a.0

fold_last-All :
    (c : String) (l : Line) (new r : Record) (rs : List Record)
    → IsTurn c new
    → All (IsTurn c) (r ∷ rs)
    → All (IsTurn c) (fold_last l new r rs)
unfolding fold_last add_tool_calls
fold_last-All c l new r [] n (h, hs) = elim (Bool-cases (r.timestamp == new.timestamp)) [
  | inl e ↦ rw e (h, tt)
  | inr e ↦ rw e (h, (n, tt))
]
fold_last-All c l new r (x ∷ xs) n (h, hs) = (h, fold_last-All c l new x xs n hs)

fold_entry-IsConversation :
    (c : String) (l : Line) (new : Record) (rs : List Record)
    → IsTurn c new
    → IsConversation c rs
    → IsConversation c (fold_entry l new rs)
unfolding add_tool_calls
fold_entry-IsConversation c l new [] n k = record { apart = tt; turns = (n, tt) }
fold_entry-IsConversation c l new (r ∷ rs) n k = record {
  apart = fold_last_apart l new r rs k.apart;
  turns = fold_last-All c l new r rs n k.turns;
}

dated :
    (d : Decoder) (c : String) (l : Line) (at : ℕ) (st : Pass)
    → str_eq c "" ≡ false
    → (at == 0) ≡ false
    → IsConversation c st.recs
    → IsConversation c (take_dated d c l at st).recs
unfolding open_record
dated d c l at st e f h = elim (Bool-cases (any_of (λ s. eq_ℤ s l.step_index) st.seen)) [
  | inl k ↦ rw k h
  | inr k ↦
      rw k
        (fold_entry-IsConversation c l (open_record d c at l.step_index) st.recs (refl, (f, e)) h)
]

turned :
    (d : Decoder) (c : String) (l : Line) (t : Option ℕ) (st : Pass)
    → str_eq c "" ≡ false
    → IsConversation c st.recs
    → IsConversation c (take_turn d c l t st).recs
turned d c l none st e h = h
turned d c l (some at) st e h = elim (Bool-cases (at == 0)) [
  | inl f ↦ rw f h
  | inr f ↦ rw f (dated d c l at st e f h)
]

right_false : (a b : Bool) → (a || b) ≡ false → b ≡ false
right_false a b h = ground (arith, h)

taken :
    (d : Decoder) (c : String) (o : Option Line) (st : Pass)
    → IsConversation c st.recs
    → IsConversation c (take_line d c o st).recs
taken d c none st h = h
taken d c (some l) st h = elim (Bool-cases (not (str_eq l.source "MODEL") || str_eq c "")) [
  | inl e ↦ rw e h
  | inr e ↦ rw e (
      turned d c l (d.time l.created_at) st
        (right_false (not (str_eq l.source "MODEL")) (str_eq c "") e) h)
]

line_read :
    (d : Decoder) (c raw : String) (st : Pass)
    → IsConversation c st.recs
    → IsConversation c (read_line d c raw st).recs
unfolding read_line
line_read d c raw st h = elim (Bool-cases (str_eq raw "")) [
  | inl e ↦ rw e h
  | inr e ↦ rw e (taken d c (d.line raw) st h)
]

lines_read :
    (d : Decoder) (c : String) (raws : List String) (st : Pass)
    → IsConversation c st.recs
    → IsConversation c (read_lines d c raws st).recs
unfolding read_lines
lines_read d c [] st h = h
lines_read d c (raw ∷ raws) st h =
    lines_read d c raws (read_line d c raw st) (line_read d c raw st h)

-- The records of a transcript are turns of its conversation at stated instants, none where the
-- conversation has no id, and no two neighbours are of one instant.
pub parse_transcript-IsConversation :
    (d : Decoder) (conversation : String) (raws : List String)
    → IsConversation conversation (parse_transcript d conversation raws).0
unfolding parse_transcript
parse_transcript-IsConversation d conversation raws =
    lines_read d conversation raws new_pass (record { apart = tt; turns = tt })
