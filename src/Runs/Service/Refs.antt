-- ===== src/Runs/Service/Refs.antt =====
-- The references to messages: `finalizeRun` of tool-gateway.service.ts and agent-run.dto.ts.
use Prim.Native.String
use Prim.Native.Char.{Char, code}
use text.Mathlib.TextLemmas.{append_assoc, append-nil, nil-append, cons-append}
use at_nova_platform.Prelude.{
  ℕ, String, ◌==◌, ◌≡◌, refl, sym, ap, ◌∙◌, Bool, true, false, ◌||◌, [], ◌∷◌, ◌++◌, Option, none,
  some, eqb, eq_iff, Bool-cases, inl, inr,
}
use at_nova_platform.Rbac.{RbacRegistry}
use at_nova_platform.Runs.{AgentRun, AgentRunEntitlement}
use at_nova_platform.Runs.Snapshot.{Runtime}
use at_nova_platform.Runs.Store.{
  World, Message, ServiceError, run_not_found, snapshot_expired, snapshot_tampered, no_conversation,
  Outcome, returned, thrown,
}
use at_nova_platform.Runs.Gateway.{
  FinalizeRunInput, after_last_slash, message_ref, load_verified, final_message, finalize_in,
  finalize_run,
}
use at_nova_platform.Runs.Gateway.Verify.{
  Loaded, verified, missing, late, forged, load_verified-Loaded,
}
use at_nova_platform.Runs.Service.{response_message_id_from}

unfoldable pub has_slash : String → Bool
has_slash String.[] = false
has_slash (String.◌∷◌ c s) = eqb (code c) b'/' || has_slash s

abbrev char_of_slash : Char
char_of_slash = "/"

or_left : (a b : Bool) → (a || b) ≡ false → a ≡ false
or_left true b e = cc
or_left false b e = refl

or_right : (a b : Bool) → (a || b) ≡ false → b ≡ false
or_right true b e = cc
or_right false b e = e

after_last_slash-plain :
    (kept s : String) → has_slash s ≡ false → after_last_slash kept s ≡ String.◌++◌ kept s
unfolding after_last_slash has_slash
after_last_slash-plain kept String.[] plain = sym (append-nil kept)
after_last_slash-plain kept (String.◌∷◌ c s) plain =
    let other : eqb (code c) b'/' ≡ false = or_left _ _ plain in
    let rest : has_slash s ≡ false = or_right _ _ plain in
    let step = after_last_slash-plain (String.◌++◌ kept (String.◌∷◌ c String.[])) s rest in
    rw other (
      step
      ∙ append_assoc kept (String.◌∷◌ c String.[]) s
      ∙ ap (λ t. String.◌++◌ kept t)
          (cons-append c String.[] s ∙ ap (λ t. String.◌∷◌ c t) (nil-append s)))

after_last_slash-append :
    (s kept id : String)
    → has_slash id ≡ false
    → after_last_slash kept (String.◌++◌ s (String.◌++◌ "/" id)) ≡ id
unfolding after_last_slash
after_last_slash-append String.[] kept id plain =
    rw (nil-append (String.◌++◌ "/" id))
      (ap (after_last_slash kept) slash_first ∙ after_last_slash-plain "" id plain ∙ nil-append id)
  where
    slash_first : String.◌++◌ "/" id ≡ String.◌∷◌ char_of_slash id
    slash_first =
        cons-append char_of_slash String.[] id
        ∙ ap (λ t. String.◌∷◌ char_of_slash t) (nil-append id)
after_last_slash-append (String.◌∷◌ c s) kept id plain =
    rw (cons-append c s (String.◌++◌ "/" id)) (after_last_slash-append s _ id plain)

pub message_ref-id :
    (conversation_id id : String)
    → has_slash id ≡ false
    → (id == "") ≡ false
    → response_message_id_from (some (message_ref conversation_id id)) ≡ some id
unfolding response_message_id_from after_last_slash
message_ref-id conversation_id id plain named =
    let whole = String.◌++◌ "nova-msg://" conversation_id in
    let split : String.◌++◌ whole (String.◌++◌ "/" id) ≡ message_ref conversation_id id =
      append_assoc "nova-msg://" conversation_id (String.◌++◌ "/" id) in
    let last : after_last_slash "" (message_ref conversation_id id) ≡ id =
      sym (ap (after_last_slash "") split) ∙ after_last_slash-append whole "" id plain in
    elim (Bool-cases (message_ref conversation_id id == "")) [
      | inl nothing ↦
          let blank : after_last_slash "" (message_ref conversation_id id) ≡ "" =
            ap (after_last_slash "") ((eq_iff (message_ref conversation_id id) "").0 nothing) in
          let id_blank = (eq_iff id "").1 (sym last ∙ blank) in
          let never : true ≡ false = sym id_blank ∙ named in cc
      | inr there ↦ rw (there, last, named) refl
    ]

-- A finalization stores one more message, at the end, with the text given, and the id that a client
-- reads from the run's reference is the id of that message, if ids have no slash and are not empty.
pub finalize_run-message_id :
    (runtime : Runtime) (registry : RbacRegistry) (now : ℕ) (fresh : String)
    (input : FinalizeRunInput) (w w' : World) (ref : String)
    → has_slash fresh ≡ false
    → (fresh == "") ≡ false
    → finalize_run runtime registry now fresh input w ≡ (returned ref, w')
    → (response_message_id_from (some ref) ≡ some fresh)
      × ((m : Message) × (m.id ≡ fresh)
          × (m.text ≡ input.text)
          × (w'.nova.messages ≡ w.nova.messages ++ m ∷ []))
unfolding finalize_run
finalize_run-message_id runtime registry now fresh input w w' ref plain named went =
    go _ refl (load_verified-Loaded runtime now input.run_id w)
  where
    Aim : Type 0
    Aim =
        (response_message_id_from (some ref) ≡ some fresh)
        × ((m : Message) × (m.id ≡ fresh)
            × (m.text ≡ input.text)
            × (w'.nova.messages ≡ w.nova.messages ++ m ∷ []))

    never :
        (e : ServiceError) (v : World)
        → Path (Outcome String × World) (thrown e, v) (returned ref, w')
        → Aim
    never e v same =
        let absurdity : Path (Outcome String) (thrown e) (returned ref) =
          ap (λ (o : Outcome String × World). o.0) same in
        cc

    finish :
        (run : AgentRun) (c : Option String)
        → finalize_in runtime registry fresh input run c w ≡ (returned ref, w')
        → Aim
    finish run none same = never no_conversation w same
    finish run (some c) same =
        let told : Path (Outcome String) (returned (message_ref c fresh)) (returned ref) =
          ap (λ (o : Outcome String × World). o.0) same in
        let this : message_ref c fresh ≡ ref = cc in
        (
          rw (← this) (message_ref-id c fresh plain named),
          (
            final_message runtime registry fresh c input,
            refl,
            refl,
            sym (ap (λ (o : Outcome String × World). o.1.nova.messages) same),
          ),
        )

    go :
        (out : Outcome (AgentRun × AgentRunEntitlement) × World)
        → load_verified runtime now input.run_id w ≡ out
        → Loaded runtime now input.run_id w out
        → Aim
    go _ e missing = never run_not_found w (rw e at went)
    go _ e late = never snapshot_expired w (rw e at went)
    go _ e (forged run) = never snapshot_tampered _ (rw e at went)
    go _ e (verified run entitlement v) = finish run run.conversation_id (rw e at went)
