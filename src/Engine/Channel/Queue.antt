-- ===== src/Engine/Channel/Queue.antt =====
-- Channels that are lists, with a flag for the receiver and a bound or none: the laws can hold.
use order_matching_engine_ru.Prelude.{
  ℕ, ◌≡◌, refl, Bool, true, ◌&&◌, Option, none, some, List, [], ◌∷◌, ◌++◌, length, ltb,
}
use order_matching_engine_ru.Engine.Channel.{Channel, IsUnbounded}

pub record Items (A : Type 0) : Type 0 where
  pub items : List A
  pub receiver : Bool

module _ {A : Type 0} where
  abbrev pub add : Items A → A → Items A
  add c x = record c { items = c.items ++ x ∷ [] }

  abbrev pub first_of : List A → Items A → Option (A × Items A)
  first_of [] c = none
  first_of (x ∷ xs) c = some (x, record c { items = xs })

  abbrev pub take_first : Items A → Option (A × Items A)
  take_first c = first_of c.items c

  abbrev pub no_items : Items A
  no_items = record { items = []; receiver = true }

  abbrev pub has_room : ℕ → Items A → Bool
  has_room n c = c.receiver && ltb (length c.items) n

module _ {A : Type 0} where
  pub take_first-none : (c : Items A) → c.items ≡ [] → take_first c ≡ none
  take_first-none c h = rw h refl

  pub take_first-some :
      (c : Items A) (x : A) (xs : List A)
      → c.items ≡ x ∷ xs
      → (c' : Items A) × (take_first c ≡ some (x, c')) × (c'.items ≡ xs)
  take_first-some c x xs h = (record c { items = xs }, rw h refl, refl)

abbrev pub channel_of : (A : Type 0) → (Items A → Bool) → Channel A
channel_of A test = record {
  State = Items A;
  queue = λ c. c.items;
  accepts = test;
  sent = add;
  received = take_first;
  empty = no_items;
  queue-empty = refl;
  queue-sent = λ c x h. refl;
  received-none = take_first-none;
  received-some = take_first-some;
}

abbrev pub unbounded_queue : (A : Type 0) → Channel A
unbounded_queue A = channel_of A (λ c. c.receiver)

abbrev pub bounded_queue : (A : Type 0) → ℕ → Channel A
bounded_queue A n = channel_of A (has_room n)

pub unbounded_queue-IsUnbounded : (A : Type 0) → IsUnbounded (unbounded_queue A)
unbounded_queue-IsUnbounded A = record { accepts-sent = λ c x h. h }
