-- ===== src/VoiceTurn/ToolLaws.antt =====
-- The replies to the tool calls of core/cluster/voice_turn.py, and the end of the conversation.
use xiaozhi_desk_robot_serve.Prelude.{
  ◌≡◌, refl, ap, sym, ◌∙◌, String, Bool, true, false, Option, none, some, List, [], ◌∷◌, ◌++◌, map,
  if◌then◌else◌, arith, eq_iff, append_assoc, map-append,
}
use xiaozhi_desk_robot_serve.VoiceTurn.Tools.{
  ToolCall, conversation_ending, end_conversation, Reply, Services, call_device, call_memory,
  execute_one, execute_all,
}

abbrev pub ending_reply : {V R : Type 0} → ToolCall V → Reply R
ending_reply c = record { id = c.id; result = conversation_ending }

-- the call that ends the conversation
abbrev pub IsExit : {V : Type 0} → ToolCall V → Type 0
IsExit c = (c.name ≡ "handle_exit_intent") × (c.arguments ≡ [])

abbrev pub exit_reply : {V R : Type 0} → String → Bool → ToolCall V → Reply R
exit_reply goodbye closing c = record {
  id = c.id;
  result = if closing then conversation_ending else end_conversation goodbye;
}

module _ {V R W : Type 0} where
  execute_all-closing :
      (s : Services V R W) (goodbye : String) (cs : List (ToolCall V)) (w : W)
      → execute_all s goodbye cs true w ≡ (true, w, map ending_reply cs)
  unfolding execute_all execute_one
  execute_all-closing s goodbye [] w = refl
  execute_all-closing s goodbye (c ∷ cs) w =
      ap (λ x. (x.0, x.1, ending_reply c ∷ x.2)) (execute_all-closing s goodbye cs w)

  -- what a list of calls leaves after the exit call: its replies, and the refusals
  abbrev pub with_refusals :
      String
      → ToolCall V
      → List (ToolCall V)
      → Bool × W × List (Reply R)
      → Bool × W × List (Reply R)
  with_refusals goodbye c after x =
      (true, x.1, x.2 ++ exit_reply goodbye x.0 c ∷ map ending_reply after)

  execute_one-exit :
      (s : Services V R W) (goodbye : String) (c : ToolCall V) (closing : Bool) (w : W)
      → IsExit c
      → execute_one s goodbye c closing w ≡ (true, w, exit_reply goodbye closing c ∷ [])
  unfolding execute_one
  execute_one-exit s goodbye c true w e = refl
  execute_one-exit s goodbye c false w e = ground (arith, eq_iff c.name "handle_exit_intent")

  execute_exit :
      (s : Services V R W) (goodbye : String) (c : ToolCall V) (after : List (ToolCall V))
      (closing : Bool) (w : W)
      → IsExit c
      → execute_all s goodbye (c ∷ after) closing w ≡ with_refusals goodbye c after (closing, w, [])
  unfolding execute_all
  execute_exit s goodbye c after closing w e =
      ap
        (λ x.
          let (closing', w', rest) = execute_all s goodbye after x.0 x.1 in
          (closing', w', x.2 ++ rest))
        (execute_one-exit s goodbye c closing w e)
      ∙ ap (λ x. (x.0, x.1, exit_reply goodbye closing c ∷ x.2))
          (execute_all-closing s goodbye after w)

  -- Whatever calls follow an exit call without arguments, they leave the world as the calls before
  -- it left it, and each of them gets the refusal as its reply.
  pub execute_all-exit :
      (s : Services V R W) (goodbye : String) (before : List (ToolCall V)) (c : ToolCall V)
      (after : List (ToolCall V)) (closing : Bool) (w : W)
      → IsExit c
      → execute_all s goodbye (before ++ c ∷ after) closing w
        ≡ with_refusals goodbye c after (execute_all s goodbye before closing w)
  unfolding execute_all
  execute_all-exit s goodbye [] c after closing w e = execute_exit s goodbye c after closing w e
  execute_all-exit s goodbye (b ∷ before) c after closing w e =
      let (closing', w', rs) = execute_one s goodbye b closing w in
      let x = execute_all s goodbye before closing' w' in
      ap (λ y. (y.0, y.1, rs ++ y.2)) (execute_all-exit s goodbye before c after closing' w' e)
      ∙ ap (λ l. (true, x.1, l))
          (sym (append_assoc rs x.2 (exit_reply goodbye x.0 c ∷ map ending_reply after)))

  -- a service that answers each call with one reply under the id of the call
  abbrev pub AnswersMemory : Option (ToolCall V → W → W × Reply R) → Type 0
  AnswersMemory none = Unit
  AnswersMemory (some f) = (c : ToolCall V) (w : W) → (f c w).1.id ≡ c.id

  abbrev pub AnswersDevice : Option (ToolCall V → W → W × List (Reply R)) → Type 0
  AnswersDevice none = Unit
  AnswersDevice (some f) =
      (c : ToolCall V) (w : W) → map (λ (r : Reply R). r.id) ((f c w).1) ≡ c.id ∷ []

  ids-call_device :
      (mcp : Option (ToolCall V → W → W × List (Reply R))) (c : ToolCall V) (w : W)
      → AnswersDevice mcp
      → map (λ (r : Reply R). r.id) ((call_device mcp c w).2) ≡ c.id ∷ []
  unfolding call_device
  ids-call_device none c w d = refl
  ids-call_device (some f) c w d = d c w

  ids-call_memory :
      (memory : Option (ToolCall V → W → W × Reply R))
      (mcp : Option (ToolCall V → W → W × List (Reply R))) (c : ToolCall V) (w : W)
      → AnswersMemory memory
      → AnswersDevice mcp
      → map (λ (r : Reply R). r.id) ((call_memory memory mcp c w).2) ≡ c.id ∷ []
  unfolding call_memory
  ids-call_memory none mcp c w m d = ids-call_device mcp c w d
  ids-call_memory (some f) mcp c w m d = ap (λ i. i ∷ []) (m c w)

  ids-execute_one :
      (s : Services V R W) (goodbye : String) (c : ToolCall V) (closing : Bool) (w : W)
      → AnswersMemory s.memory
      → AnswersDevice s.mcp
      → map (λ (r : Reply R). r.id) ((execute_one s goodbye c closing w).2) ≡ c.id ∷ []
  unfolding execute_one
  ids-execute_one s goodbye c true w m d = refl
  ids-execute_one s goodbye c false w m d =
      ground (arith, ids-call_memory s.memory s.mcp c w m d, ids-call_device s.mcp c w d)

  -- If Memory and the device answer each call with one reply under its id, the calls get exactly one
  -- reply each, in their order, whether they are executed or refused.
  pub execute_all-ids :
      (s : Services V R W) (goodbye : String) (cs : List (ToolCall V)) (closing : Bool) (w : W)
      → AnswersMemory s.memory
      → AnswersDevice s.mcp
      → map (λ (r : Reply R). r.id) ((execute_all s goodbye cs closing w).2)
        ≡ map (λ (c : ToolCall V). c.id) cs
  unfolding execute_all
  execute_all-ids s goodbye [] closing w m d = refl
  execute_all-ids s goodbye (c ∷ cs) closing w m d =
      let (closing', w', rs) = execute_one s goodbye c closing w in
      map-append (λ (r : Reply R). r.id) rs _
      ∙ ap (λ l. l ++ map (λ (r : Reply R). r.id) ((execute_all s goodbye cs closing' w').2))
          (ids-execute_one s goodbye c closing w m d)
      ∙ ap (λ l. c.id ∷ l) (execute_all-ids s goodbye cs closing' w' m d)
