-- ===== src/Irc/Dispatcher/Channels.antt =====
-- What `dedup` keeps: every channel of the lists, once.
use irc_eew.Base.{
  ◌≡◌, refl, sym, ◌∙◌, Bool, true, false, ◌||◌, List, [], ◌∷◌, arith, Bool-cases, inl, inr,
}
use irc_eew.Base.Bytes.{Bytes, equal, equal_iff, contains, contains-append, Distinct}
use irc_eew.Base.Dict.{get, get-put}
use irc_eew.Base.Keys.{Distinct-concat}
use irc_eew.Irc.Dispatcher.{Dedup, is_seen, note, note_list, note_lists, dedup}

-- Is `k` in one of the lists?
abbrev pub listed : Bytes → List (List Bytes) → Bool
listed k [] = false
listed k (l ∷ ls) = contains k l || listed k ls

-- The map knows what the slice holds, and the slice holds nothing twice.
record Agrees (d : Dedup) : Type 0 where
  knows : (k : Bytes) → is_seen d k ≡ contains k d.out
  distinct : Distinct d.out

note-Agrees : (d : Dedup) (ch : Bytes) → Agrees d → Agrees (note d ch)
unfolding note
note-Agrees d ch a = elim (Bool-cases (is_seen d ch)) [
  | inl known ↦ rw known a
  | inr new ↦ rw new (record {
    knows =
        λ k. ground (arith, get-put k ch true d.seen, a.knows k, contains-append k d.out (ch ∷ []));
    distinct = Distinct-concat d.out ch a.distinct (sym (a.knows ch) ∙ new);
  })
]

-- The channel is held, and nothing else is new.
contains-note :
    (d : Dedup) (ch k : Bytes)
    → Agrees d
    → contains k (note d ch).out ≡ (contains k d.out || equal ch k)
unfolding note
contains-note d ch k a = elim (Bool-cases (is_seen d ch)) [
  | inl known ↦ rw known (ground (arith, equal_iff ch k, a.knows ch))
  | inr new ↦ rw new (ground (arith, contains-append k d.out (ch ∷ [])))
]

note_list-Agrees : (d : Dedup) (l : List Bytes) → Agrees d → Agrees (note_list d l)
unfolding note_list
note_list-Agrees d [] a = a
note_list-Agrees d (ch ∷ l) a = note_list-Agrees (note d ch) l (note-Agrees d ch a)

contains-note_list :
    (d : Dedup) (l : List Bytes) (k : Bytes)
    → Agrees d
    → contains k (note_list d l).out ≡ (contains k d.out || contains k l)
unfolding note_list
contains-note_list d [] k a = ground arith
contains-note_list d (ch ∷ l) k a =
    ground (arith, contains-note_list (note d ch) l k (note-Agrees d ch a), contains-note d ch k a)

note_lists-Agrees : (d : Dedup) (ls : List (List Bytes)) → Agrees d → Agrees (note_lists d ls)
unfolding note_lists
note_lists-Agrees d [] a = a
note_lists-Agrees d (l ∷ ls) a = note_lists-Agrees (note_list d l) ls (note_list-Agrees d l a)

contains-note_lists :
    (d : Dedup) (ls : List (List Bytes)) (k : Bytes)
    → Agrees d
    → contains k (note_lists d ls).out ≡ (contains k d.out || listed k ls)
unfolding note_lists
contains-note_lists d [] k a = ground arith
contains-note_lists d (l ∷ ls) k a = ground (
  arith,
  contains-note_lists (note_list d l) ls k (note_list-Agrees d l a),
  contains-note_list d l k a,
)

nothing : Dedup
nothing = record { seen = []; out = [] }

nothing-Agrees : Agrees nothing
unfolding nothing get
nothing-Agrees = record { knows = λ k. refl; distinct = tt }

-- `dedup` lists no channel twice, and lists exactly the channels of the given lists.
pub dedup-Distinct :
    (lists : List (List Bytes))
    → Distinct (dedup lists) × ((k : Bytes) → contains k (dedup lists) ≡ listed k lists)
unfolding dedup nothing
dedup-Distinct lists = (
  (note_lists-Agrees nothing lists nothing-Agrees).distinct,
  λ k. contains-note_lists nothing lists k nothing-Agrees,
)
