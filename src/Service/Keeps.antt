-- ===== src/Service/Keeps.antt =====
-- What every change of the store keeps: the tasks, as they were submitted.
use task_hub.Shared.{◌≡◌, inl, inr, some, String, ◌==◌, arith, eq_iff, Bool-cases}
use task_hub.Shared.Dict.{lookup, lookup-insert}
use task_hub.Types.{TaskRecord}
use task_hub.InMemory.{InMemory}
use task_hub.Service.Changes.{
  SameSubmission, Change, puts_runner, adds_task, updates_task, adds_logs, adds_delivery, Changes,
  unchanged, then_change,
}

pub SameSubmission-refl : (t : TaskRecord) → SameSubmission t t
SameSubmission-refl t = ground arith

pub SameSubmission-trans :
    (t u v : TaskRecord) → SameSubmission t u → SameSubmission u v → SameSubmission t v
SameSubmission-trans t u v h k = ground arith

-- The store holds a task under this id.
abbrev pub Known : String → InMemory → Type 0
Known id s = (task : TaskRecord) × (lookup id s.tasks ≡ some task)

-- Whatever task the first store holds, the second holds under the same id, submitted alike.
abbrev pub Keeps : InMemory → InMemory → Type 0
Keeps s s' =
    (id : String) (task : TaskRecord)
    → lookup id s.tasks ≡ some task
    → (later : TaskRecord) × (lookup id s'.tasks ≡ some later) × SameSubmission task later

Keeps-refl : (s : InMemory) → Keeps s s
Keeps-refl s id task e = (task, e, SameSubmission-refl task)

pub Change-Keeps : (s s' : InMemory) → Change s s' → Keeps s s'
Change-Keeps s s' (puts_runner runner e) id task h = (task, ground arith, SameSubmission-refl task)
Change-Keeps s s' (adds_logs batch t k e) id task h = (task, ground arith, SameSubmission-refl task)
Change-Keeps s s' (adds_delivery delivery t k e) id task h =
    (task, ground arith, SameSubmission-refl task)
Change-Keeps s s' (adds_task new fresh st key e) id task h = (
  task,
  ground (arith, eq_iff new.task_id id, lookup-insert new.task_id id new s.tasks),
  SameSubmission-refl task,
)
Change-Keeps s s' (updates_task old new found same lease e) id task h =
    elim (Bool-cases (new.task_id == id)) [
      | inl hit ↦ (
        new,
        ground (arith, lookup-insert new.task_id id new s.tasks),
        ground (arith, eq_iff new.task_id id),
      )
      | inr miss ↦
          (task, ground (arith, lookup-insert new.task_id id new s.tasks), SameSubmission-refl task)
    ]

pub Changes-Keeps : (s s' : InMemory) → Changes s s' → Keeps s s'
Changes-Keeps s s' unchanged id task h = Keeps-refl s id task h
Changes-Keeps s s' (then_change {t} c last) id task h =
    let (middle, found, same) = Changes-Keeps s t c id task h in
    let (later, found', same') = Change-Keeps t s' last id middle found in
    (later, found', SameSubmission-trans task middle later same same')

pub Known-Keeps : (s s' : InMemory) (id : String) → Keeps s s' → Known id s → Known id s'
Known-Keeps s s' id keeps (task, e) = let (later, found, same) = keeps id task e in (later, found)
