-- ===== src/Chat/Extending.antt =====
-- Rooms that are still there, with messages that have come since.
use gotalk.Common.{
  Bytes, List, Bool-cases, [], ◌++◌, ◌≡◌, bytes_eq, some, ◌∙◌, ◌∷◌, ap, inl, Option, append_assoc,
  inr, sym, append-nil, if◌then◌else◌, none,
}
use gotalk.Chat.{Message, Room, find_in, append_message}
use gotalk.Chat.Rooms.{find_in-snoc, find_in-append_message, map_room, with_message}

-- Every room is still there, with its messages in front of any that have come since.
abbrev pub Extends : List Room → List Room → Type 0
Extends rs rs' =
    (name : Bytes) (r : Room)
    → find_in name rs ≡ some r
    → (more : List Message) × (find_in name rs' ≡ some (record r { messages = r.messages ++ more }))

pub Extends-refl : (rs : List Room) → Extends rs rs
Extends-refl rs name r e =
    ([], e ∙ ap (λ ms. some (record r { messages = ms })) (sym (append-nil r.messages)))

pub Extends-trans : (a b c : List Room) → Extends a b → Extends b c → Extends a c
Extends-trans a b c h k name r e =
    let (more, e1) = h name r e in
    let (more', e2) = k name (record r { messages = r.messages ++ more }) e1 in
    (
      more ++ more',
      e2 ∙ ap (λ ms. some (record r { messages = ms })) (append_assoc r.messages more more'),
    )

pub Extends-append_message :
    (name : Bytes) (m : Message) (rs : List Room) → Extends rs (append_message name m rs)
Extends-append_message name m rs j r e = elim (Bool-cases (bytes_eq name j)) [
  | inl same ↦
      (m ∷ [], find_in-append_message name j m rs ∙ rw same (ap (map_room (with_message m)) e))
  | inr other ↦ (
    [],
    find_in-append_message name j m rs
        ∙ rw other (e ∙ ap (λ ms. some (record r { messages = ms })) (sym (append-nil r.messages))),
  )
]

pub Extends-snoc : (new : Room) (rs : List Room) → Extends rs (rs ++ (new ∷ []))
Extends-snoc new rs j r e = (
  [],
  find_in-snoc j new rs
      ∙ ap
          (λ (x : Option Room). elim x [
            | some found ↦ some found
            | none ↦ if bytes_eq new.room_name j then some new else none
          ])
          e
      ∙ ap (λ ms. some (record r { messages = ms })) (sym (append-nil r.messages)),
)
