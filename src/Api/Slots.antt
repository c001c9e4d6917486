-- ===== src/Api/Slots.antt =====
-- The endpoints and the slots of the engines (api_handlers.go: handleChatCompletions, handleMessages).
use gateway.Prelude.{ℕ, ◌≡◌, refl, ap, Option, List}
use gateway.Engine.{Adapter}
use gateway.RateLimit.{Rate}
use gateway.Users.{User}
use gateway.Admission.{Admitted, refused, admitted, Gateway}
use gateway.Admission.Slots.{Slot, admit_completion-Slot, Slot-refused, Slot-admitted}
use gateway.Api.{
  Library, Read, Answers, Reply, Interaction, with_slot, handle_chat_completions, handle_messages,
  chat_body, messages_body,
}

module _ {rate : Rate} (l : Library) where
  with_slot-keeps :
      (taken : ℕ → ℕ) (p : Gateway rate × Admitted) (serve : Adapter → Reply × List Interaction)
      (j : ℕ)
      → Slot taken p
      → (with_slot rate l p serve).0.taken j ≡ taken j
  unfolding with_slot
  with_slot-keeps taken (g, refused code) serve j slot =
      ap (λ t. t j) (Slot-refused taken (g, refused code) code slot refl)
  with_slot-keeps taken (g, admitted a) serve j slot =
      (Slot-admitted taken (g, admitted a) a j slot refl).1

  -- A chat completion leaves the taken slots of every engine as they were, on each of its exits: a
  -- refusal, an engine that fails, a client that leaves, an answer, and a stream however it ends.
  pub chat-taken :
      (user : Option User) (read : Read) (a : Answers) (g : Gateway rate) (j : ℕ)
      → (handle_chat_completions rate l user read a g).0.taken j ≡ g.taken j
  unfolding handle_chat_completions
  chat-taken user read a g j =
      with_slot-keeps g.taken _ _ j
        (admit_completion-Slot a.cache user (chat_body l read) a.now a.built a.gives_up g)

  -- So does a Messages request.
  pub messages-taken :
      (user : Option User) (read : Read) (a : Answers) (g : Gateway rate) (j : ℕ)
      → (handle_messages rate l user read a g).0.taken j ≡ g.taken j
  unfolding handle_messages
  messages-taken user read a g j =
      with_slot-keeps g.taken _ _ j
        (admit_completion-Slot a.cache user (messages_body l read) a.now a.built a.gives_up g)
