-- ===== src/BodyLimit/Laws.antt =====
-- app/app.py: which bodies `BodySizeLimitMiddleware` forwards.
use bulk_processing_service.Base.{
  Bool, Bool-cases, Bytes, List, Option, Option-cases, Text, [], ap, arith, false, if◌then◌else◌,
  inl, inr, length, length-append, ltb, none, some, sym, true, ℕ, ◌++◌, ◌+◌, ◌∙◌, ◌∷◌, ◌≡◌, ◌≤◌,
}
use bulk_processing_service.BodyLimit.{
  Handled, Message, disconnect, exceeds, forwarded, handle, read_body, request, too_large,
  with_length,
}
use bulk_processing_service.Strings.Integer.{parse_int}
use mathlib.Core.List.{append-nil, append_assoc}

-- The bodies of messages, joined.
abbrev pub joined : List Message → Bytes
joined [] = []
joined (request chunk more ∷ messages) = chunk ++ joined messages
joined (disconnect ∷ messages) = joined messages

-- The messages of one request: each but the last says that more is to come.
abbrev pub IsComplete : List Message → Type 0
IsComplete [] = ⊥
IsComplete (disconnect ∷ messages) = ⊥
IsComplete (request chunk false ∷ messages) = messages ≡ []
IsComplete (request chunk true ∷ messages) = IsComplete messages

-- What a forwarded body is: within the limit, and what the messages in front hold.
abbrev pub IsBounded : ℕ → Bytes → List Message → Bytes → List Message → Type 0
IsBounded max before messages body rest =
    (length body ≤ max)
    × ((front : List Message) × (messages ≡ front ++ rest) × (body ≡ before ++ joined front))

forwarded_injective :
    {a b : Bytes} {r s : List Message} → forwarded a r ≡ forwarded b s → (a ≡ b) × (r ≡ s)
forwarded_injective e = (cc, cc)

read_body-IsBounded :
    (max : ℕ) (before : Bytes) (messages : List Message) (body : Bytes) (rest : List Message)
    → length before ≤ max
    → read_body max before messages ≡ forwarded body rest
    → IsBounded max before messages body rest
unfolding read_body
read_body-IsBounded max before [] body rest le e = absurd (ground arith)
read_body-IsBounded max before (disconnect ∷ messages) body rest le e =
    let (same, left) = forwarded_injective e in
    (
      rw (← same) le,
      (disconnect ∷ [], ap (λ t. disconnect ∷ t) left, sym same ∙ sym (append-nil before)),
    )
read_body-IsBounded max before (request chunk more ∷ messages) body rest le e =
    elim (Bool-cases (ltb max (length (before ++ chunk)))) [
      | inl over ↦ absurd (ground arith)
      | inr fits ↦ elim (Bool-cases more) [
        | inl go_on ↦
            let (bound, (front, split, whole)) =
              read_body-IsBounded max (before ++ chunk) messages body rest (ground arith)
                (ground arith) in
            (
              bound,
              (
                request chunk more ∷ front,
                ap (λ t. request chunk more ∷ t) split,
                whole ∙ append_assoc before chunk (joined front),
              ),
            )
        | inr last ↦
            let left : forwarded (before ++ chunk) messages ≡ forwarded body rest = ground arith in
            let (same, behind) = forwarded_injective left in
            (
              rw (← same) (ground arith),
              (
                request chunk more ∷ [],
                ap (λ t. request chunk more ∷ t) behind,
                sym same ∙ ap (λ t. before ++ t) (sym (append-nil chunk)),
              ),
            )
      ]
    ]

-- A body that the application gets is within the limit, whatever the client declares and however
-- it splits the body, and it is the bodies of the messages that were taken, joined in their order.
pub handle-IsBounded :
    (max : ℕ) (content_length : Option Text) (messages : List Message) (body : Bytes)
    (rest : List Message)
    → handle max true content_length messages ≡ forwarded body rest
    → (length body ≤ max)
      × ((front : List Message) × (messages ≡ front ++ rest) × (body ≡ joined front))
unfolding handle with_length
handle-IsBounded max none messages body rest e =
    read_body-IsBounded max [] messages body rest (omega arith) e
handle-IsBounded max (some t) messages body rest e = elim (Option-cases (parse_int t)) [
  | inl invalid ↦ absurd (ground arith)
  | inr (n, declared) ↦ elim (Bool-cases (exceeds n max)) [
    | inl over ↦ absurd (ground arith)
    | inr fits ↦ read_body-IsBounded max [] messages body rest (omega arith) (ground arith)
  ]
]

length-append3 : (a b c : Bytes) → length (a ++ (b ++ c)) ≡ length a + (length b + length c)
length-append3 a b c = length-append a (b ++ c) ∙ ap (λ n. length a + n) (length-append b c)

-- What is decided of a body.
abbrev verdict : ℕ → Bytes → Handled
verdict max body = if ltb max (length body) then too_large max else forwarded body []

too_long :
    (max : ℕ) (body : Bytes) → ltb max (length body) ≡ true → verdict max body ≡ too_large max
too_long max body e = ground arith

stop :
    (max : ℕ) (before chunk : Bytes) (more : Bool) (messages : List Message)
    → ltb max (length (before ++ chunk)) ≡ true
    → read_body max before (request chunk more ∷ messages) ≡ too_large max
unfolding read_body
stop max before chunk more messages e = ground arith

go_on :
    (max : ℕ) (before chunk : Bytes) (messages : List Message)
    → ltb max (length (before ++ chunk)) ≡ false
    → read_body max before (request chunk true ∷ messages)
      ≡ read_body max (before ++ chunk) messages
unfolding read_body
go_on max before chunk messages e = ground arith

read_body-IsComplete :
    (max : ℕ) (before : Bytes) (messages : List Message)
    → IsComplete messages
    → read_body max before messages ≡ verdict max (before ++ joined messages)
unfolding read_body
read_body-IsComplete max before [] h = absurd h
read_body-IsComplete max before (disconnect ∷ messages) h = absurd h
read_body-IsComplete max before (request chunk false ∷ messages) h =
    rw (h, append-nil chunk) (ground arith)
read_body-IsComplete max before (request chunk true ∷ messages) h =
    elim (Bool-cases (ltb max (length (before ++ chunk)))) [
      | inl over ↦
          let total : ltb max (length (before ++ (chunk ++ joined messages))) ≡ true =
            ground
              (arith, length-append3 before chunk (joined messages), length-append before chunk) in
          stop max before chunk true messages over ∙ sym (too_long max _ total)
      | inr fits ↦
          go_on max before chunk messages fits
          ∙ read_body-IsComplete max (before ++ chunk) messages h
          ∙ ap (verdict max) (append_assoc before chunk (joined messages))
    ]

-- Whether a request that comes in whole is rejected or forwarded is decided by its length alone,
-- however it is split into messages: without a declared length, it is rejected with 413 where its
-- body is longer than the limit, and else the application gets the whole body at once.
pub handle-IsComplete :
    (max : ℕ) (messages : List Message)
    → IsComplete messages
    → handle max true none messages ≡ (
        if ltb max (length (joined messages))
        then too_large max
        else forwarded (joined messages) [])
unfolding handle
handle-IsComplete max messages h = read_body-IsComplete max [] messages h
