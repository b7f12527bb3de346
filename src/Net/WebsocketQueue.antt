-- ===== src/Net/WebsocketQueue.antt =====
-- src/net/websocket_queue.cpp. A buffer is a value of `A` and a callback one of `H`; starting an
-- asynchronous write and calling a callback are effects that an operation returns in their order.
-- `close_handlers` is a std::map, an association list with its keys ascending.
pub mod CloseHandlers
use cis1_webui_native_srv_cp.Prelude.{
  ℕ, ◌+◌, ◌-◌, ◌%◌, ◌^◌, Bool, true, false, List, [], ◌∷◌, ◌++◌, map, Option, none, some, ltb, leb,
  ◌==◌, if◌then◌else◌, length,
}

pub record Message (A H : Type 0) : Type 0 where
  pub text : Bool
  pub buffer : A
  pub on_write : H

pub record Queue (A H : Type 0) : Type 0 where
  pub close_handlers : List (ℕ × H)
  pub messages : List (Message A H)

pub data Effect (A H : Type 0) : Type 0 where
  async_write : Message A H → Effect A H
  call : H → Effect A H

abbrev pub limit : ℕ
limit = 64

module _ {H : Type 0} where
  -- std::map::insert, which leaves a key that is there as it is.
  unfoldable pub insert_key : ℕ → H → List (ℕ × H) → List (ℕ × H)
  insert_key k h [] = (k, h) ∷ []
  insert_key k h ((j, g) ∷ m) =
      if ltb k j
      then (k, h) ∷ (j, g) ∷ m
      else if k == j
      then (j, g) ∷ m
      else (j, g) ∷ insert_key k h m

  unfoldable pub erase_key : ℕ → List (ℕ × H) → List (ℕ × H)
  erase_key k [] = []
  erase_key k ((j, g) ∷ m) = if k == j then m else (j, g) ∷ erase_key k m

  -- `--end()` and `it->first`.
  unfoldable pub last_key : List (ℕ × H) → Option ℕ
  last_key [] = none
  last_key ((j, g) ∷ []) = some j
  last_key ((j, g) ∷ e ∷ m) = last_key (e ∷ m)

module _ {A H : Type 0} where
  unfoldable pub empty_queue : Queue A H
  empty_queue = record { close_handlers = []; messages = [] }

  -- `send` writes the front of the queue, which is there wherever it is called.
  unfoldable pub send : Queue A H → List (Effect A H)
  send q = elim q.messages [ [] ↦ [] | m ∷ rest ↦ async_write m ∷ [] ]

  unfoldable pub push : Queue A H → Message A H → Queue A H × List (Effect A H)
  unfolding send
  push q m =
      let q' : Queue A H = record q { messages = q.messages ++ m ∷ [] } in
      (q', if length q'.messages == 1 then send q' else [])

  unfoldable pub send_text : Queue A H → A → H → Queue A H × List (Effect A H)
  unfolding push
  send_text q b h = push q (record { text = true; buffer = b; on_write = h })

  unfoldable pub send_binary : Queue A H → A → H → Queue A H × List (Effect A H)
  unfolding push
  send_binary q b h = push q (record { text = false; buffer = b; on_write = h })

  unfoldable pub is_full : Queue A H → Bool
  is_full q = leb limit (length q.messages)

  -- `it->first - 1` on uint32_t.
  unfoldable pub add_close_handler : Queue A H → H → Queue A H × ℕ
  unfolding insert_key last_key
  add_close_handler q h = elim (last_key q.close_handlers) [
    | none ↦ (record q { close_handlers = insert_key 0 h q.close_handlers }, 0)
    | some k ↦ (
      record q { close_handlers = insert_key ((k + 2 ^ 32 - 1) % 2 ^ 32) h q.close_handlers },
      (k + 2 ^ 32 - 1) % 2 ^ 32,
    )
  ]

  unfoldable pub remove_close_handler : Queue A H → ℕ → Queue A H
  unfolding erase_key
  remove_close_handler q k = record q { close_handlers = erase_key k q.close_handlers }

  pub close : Queue A H → List (Effect A H)
  close q = map (λ e. call e.1) q.close_handlers

  -- The front is asserted to be there. The result is that the queue was full.
  unfoldable pub on_write : Queue A H → Queue A H × List (Effect A H) × Bool
  unfolding send is_full
  on_write q = elim q.messages [
    | [] ↦ (q, [], is_full q)
    | m ∷ rest ↦
        let q' : Queue A H = record q { messages = rest } in
        (q', call m.on_write ∷ send q', is_full q)
  ]
