-- ===== src/Tasks/History.antt =====
-- repositories/taskRepository.ts: any sequence of its operations, and what holds through it.
use discordagent.Base.{ℕ, String, ◌≡◌, refl, List, [], ◌∷◌, Result, ok, err}
use discordagent.Tasks.Rows.{
  TaskStatus, TaskControlCardPinState, TaskStore, TaskResult, CreateTaskTransaction,
  ProviderSession, TaskError, TaskHost,
}
use discordagent.Tasks.Repository.{
  answer, create_with_worktree, attach_provider_session, transition, mark_worktree_removed,
  reopen_for_continuation, save_result, save_control_card,
}
use discordagent.Tasks.Changes.{
  create_write-Creation, attach_write-Attachment, transition_write-Move, remove_write-Removal,
  reopen_write-Reopening, save_write-Saving, card_write-Pinning, Creation, Attachment, Move,
  Removal, Reopening, Saving, Pinning,
}
use discordagent.Tasks.Soundness.{IsSound}
use discordagent.Tasks.Moves.{Move-IsSound, Reopening-IsSound}
use discordagent.Tasks.Upkeep.{
  Creation-IsSound, Attachment-IsSound, Removal-IsSound, Saving-IsSound, Pinning-IsSound,
}

-- The calls that write, each with the time and the random id that it takes.
pub data TaskOperation : Type 0 where
  create : CreateTaskTransaction → ℕ → TaskOperation
  attach : String → ProviderSession → String → TaskOperation
  move : String → List TaskStatus → TaskStatus → ℕ → TaskOperation
  remove : String → ℕ → TaskOperation
  reopen : String → ℕ → TaskOperation
  save : String → TaskResult → TaskOperation
  pin : String → String → TaskControlCardPinState → ℕ → TaskOperation

-- The store after a call, whether it returns or throws.
unfoldable pub perform : TaskHost → TaskStore → TaskOperation → TaskStore
perform h s (create input now) = (create_with_worktree h s input now).0
perform h s (attach id x uuid) = (attach_provider_session h s id x uuid).0
perform h s (move id expected next now) = (transition h s id expected next now).0
perform h s (remove id now) = (mark_worktree_removed s id now).0
perform h s (reopen id now) = (reopen_for_continuation h s id now).0
perform h s (save id r) = (save_result h s id r).0
perform h s (pin id message state now) = (save_control_card h s id message state now).0

unfoldable pub run : TaskHost → TaskStore → List TaskOperation → TaskStore
run h s [] = s
run h s (o ∷ os) = run h (perform h s o) os

-- The change that a call makes where it does not throw.
pub data Change (h : TaskHost) (s s' : TaskStore) : TaskOperation → Type 0 where
  creation :
      {input : CreateTaskTransaction} {now : ℕ}
      → Creation h s input now s'
      → Change h s s' (create input now)
  attachment :
      {id : String} {x : ProviderSession} {uuid : String}
      → Attachment s id x uuid s'
      → Change h s s' (attach id x uuid)
  movement :
      {id : String} {expected : List TaskStatus} {next : TaskStatus} {now : ℕ}
      → Move s id expected next now s'
      → Change h s s' (move id expected next now)
  removal : {id : String} {now : ℕ} → Removal s id now s' → Change h s s' (remove id now)
  reopening : {id : String} {now : ℕ} → Reopening s id now s' → Change h s s' (reopen id now)
  saving : {id : String} {r : TaskResult} → Saving h s id r s' → Change h s s' (save id r)
  pinning :
      {id message : String} {state : TaskControlCardPinState} {now : ℕ}
      → Pinning s id (record { message_id = message; pin_state = state; updated_at = now }) s'
      → Change h s s' (pin id message state now)

-- A call leaves the store of its write where that is made, and the old one where it throws.
answer-cases :
    {A : Type 0} (P : TaskStore → Type 0) (s : TaskStore) (w : Result TaskError TaskStore)
    (read : TaskStore → Result TaskError A)
    → P s
    → ((s' : TaskStore) → w ≡ ok s' → P s')
    → P (answer s w read).0
answer-cases P s (err x) read p q = p
answer-cases P s (ok s') read p q = q s' refl

pub perform-cases :
    (P : TaskStore → Type 0) (h : TaskHost) (s : TaskStore) (o : TaskOperation)
    → P s
    → ((s' : TaskStore) → Change h s s' o → P s')
    → P (perform h s o)
unfolding perform create_with_worktree attach_provider_session transition mark_worktree_removed
    reopen_for_continuation save_result save_control_card
perform-cases P h s (create input now) p q =
    answer-cases P s _ _ p (λ s' e. q s' (creation (create_write-Creation h s input now s' e)))
perform-cases P h s (attach id x uuid) p q =
    answer-cases P s _ _ p (λ s' e. q s' (attachment (attach_write-Attachment h s id x uuid s' e)))
perform-cases P h s (move id expected next now) p q =
    answer-cases P s _ _ p
      (λ s' e. q s' (movement (transition_write-Move h s id expected next now s' e)))
perform-cases P h s (remove id now) p q =
    answer-cases P s _ _ p (λ s' e. q s' (removal (remove_write-Removal s id now s' e)))
perform-cases P h s (reopen id now) p q =
    answer-cases P s _ _ p (λ s' e. q s' (reopening (reopen_write-Reopening h s id now s' e)))
perform-cases P h s (save id r) p q =
    answer-cases P s _ _ p (λ s' e. q s' (saving (save_write-Saving h s id r s' e)))
perform-cases P h s (pin id message state now) p q =
    answer-cases P s _ _ p
      (λ s' e. q s' (pinning (card_write-Pinning h s id message state now s' e)))

Change-IsSound :
    (h : TaskHost) (s s' : TaskStore) (o : TaskOperation) → IsSound s → Change h s s' o → IsSound s'
Change-IsSound h s s' (create input now) k (creation c) = Creation-IsSound s s' h input now k c
Change-IsSound h s s' (attach id x uuid) k (attachment c) = Attachment-IsSound s s' id x uuid k c
Change-IsSound h s s' (move id expected next now) k (movement c) =
    Move-IsSound s s' id expected next now k c
Change-IsSound h s s' (remove id now) k (removal c) = Removal-IsSound s s' id now k c
Change-IsSound h s s' (reopen id now) k (reopening c) = Reopening-IsSound s s' id now k c
Change-IsSound h s s' (save id r) k (saving c) = Saving-IsSound h s s' id r k c
Change-IsSound h s s' (pin id message state now) k (pinning c) = Pinning-IsSound s s' id _ k c

-- Whatever calls are made, in any order and with any arguments, a sound store stays sound: foreign
-- keys lead to rows, no two tasks share a thread or a provider session, sessions have their task's
-- provider, results fit their task's status, and the times fit the status.
pub run-IsSound :
    (h : TaskHost) (s : TaskStore) (os : List TaskOperation) → IsSound s → IsSound (run h s os)
unfolding run
run-IsSound h s [] k = k
run-IsSound h s (o ∷ os) k =
    run-IsSound h (perform h s o) os
      (perform-cases IsSound h s o k (λ s' c. Change-IsSound h s s' o k c))
