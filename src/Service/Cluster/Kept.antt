-- ===== src/Service/Cluster/Kept.antt =====
-- No job is lost while the nodes run, unless a call that hands it over fails.
use anchora.Prelude.{
  String, ◌≡◌, true, false, ◌⊎◌, inl, inr, List, [], ◌∷◌, ◌++◌, map, All, Result, ◌==◌,
}
use anchora.Redis.{Redis}
use anchora.Store.{JobRow}
use anchora.Store.Settled.{is_settled}
use anchora.Service.Program.{Call, Payload, Response, Program, calls}
use anchora.Service.Backend.{Backend}
use anchora.Service.Cluster.{Actor, program_of}
use anchora.Service.Cluster.World.{Occasion, World, Runs, handle, stops, makes}
use anchora.Service.Cluster.Custody.{Holds, Hands, takes, is_regular, drops}
use anchora.Service.Cluster.Custody.Programs.{program_of-Hands}
use anchora.Service.Cluster.Custody.Steps.{Found, IsSettledIn}
use anchora.Service.Cluster.Custody.Calls.{
  IsReady, handle-Found, handle-IsReady, handle-settled, handle-gives,
}
use anchora.Service.Cluster.Foreign.{All-middle}

abbrev pub Some : {A : Type 0} → (A → Type 0) → List A → Type 0
Some P [] = ⊥
Some P (a ∷ l) = P a ⊎ Some P l

-- Where one element of the list is replaced: it had the property, or another has it.
Some-middle :
    {A : Type 0} (P : A → Type 0) (before after : List A) (x y : A)
    → Some P (before ++ x ∷ after)
    → P x ⊎ Some P (before ++ y ∷ after)
Some-middle P [] after x y (inl here) = inl here
Some-middle P [] after x y (inr later) = inr (inr later)
Some-middle P (b ∷ before) after x y (inl here) = inr (inl here)
Some-middle P (b ∷ before) after x y (inr later) = elim (Some-middle P before after x y later) [
  | inl p ↦ inl p
  | inr q ↦ inr (inr q)
]

Some-here :
    {A : Type 0} (P : A → Type 0) (before after : List A) (y : A)
    → P y
    → Some P (before ++ y ∷ after)
Some-here P [] after y p = inl p
Some-here P (b ∷ before) after y p = inr (Some-here P before after y p)

module _ (redis : Redis) (name : String) (encode : Payload → Result String String)
    (id : String) where
  -- The job is in the table, with an owner and a lease exactly while it runs, and it is finished, or a worker has it, or it is ready in the queue, or
  -- one of the programs is to give it on.
  abbrev pub Kept : List (Program (Unit {0})) → World redis name encode → Type 0
  Kept ps w =
      (row : JobRow) × Found id w.tables.jobs row
      × ((is_settled row ≡ true) ⊎ (IsReady redis name encode id w ⊎ Some (Holds id) ps))

  -- No call fails in such a way that the job is lost.
  abbrev pub IsHandedOver : List (Occasion × Call) → Type 0
  IsHandedOver trace = All (λ entry. drops id entry.0.fault entry.1 ≡ false) trace

  module _ (before after : List (Program (Unit {0}))) (o : Occasion) (c : Call)
      (next : Response c → Program (Unit {0})) (w : World redis name encode) where
    abbrev Next : Type 0
    Next =
        Kept (before ++ next (handle redis name encode o c w).1 ∷ after)
          (handle redis name encode o c w).0

    settled-Next : IsSettledIn id (handle redis name encode o c w).0.tables.jobs → Next
    settled-Next (row, found, settled) = (row, found, inl settled)

    module _ (row : JobRow) (found : Found id w.tables.jobs row) (regular : is_regular c ≡ true)
        (delivered : drops id o.fault c ≡ false) where
      placed-Next :
          IsReady redis name encode id (handle redis name encode o c w).0
            ⊎ Some (Holds id) (before ++ next (handle redis name encode o c w).1 ∷ after)
          → Next
      placed-Next place =
          let (row', found', keeps) = handle-Found redis name encode id o c w row found regular in
          (row', found', inr place)

      taken-Next :
          (takes id c (handle redis name encode o c w).1 ≡ true
            → Holds id (next (handle redis name encode o c w).1))
          → takes id c (handle redis name encode o c w).1 ≡ true
          → Next
      taken-Next hands taken = placed-Next (inr (Some-here (Holds id) before after _ (hands taken)))

      step-Kept :
          (takes id c (handle redis name encode o c w).1 ≡ true
            → Holds id (next (handle redis name encode o c w).1))
          → (is_settled row ≡ true)
            ⊎ (IsReady redis name encode id w ⊎ Some (Holds id) (before ++ calls c next ∷ after))
          → Next
      step-Kept hands (inl settled) =
          elim (handle-settled redis name encode id o c w delivered regular (row, found, settled)) [
            | inl kept ↦ settled-Next kept
            | inr taken ↦ taken-Next hands taken
          ]
      step-Kept hands (inr (inl ready)) =
          elim (handle-IsReady redis name encode id o c w delivered ready) [
            | inl kept ↦ placed-Next (inl kept)
            | inr taken ↦ taken-Next hands taken
          ]
      step-Kept hands (inr (inr held)) =
          elim (Some-middle (Holds id) before after (calls c next)
            (next (handle redis name encode o c w).1) held) [
              | inr other ↦ placed-Next (inr other)
              | inl (inr later) ↦ placed-Next (
                  inr (
                    Some-here (Holds id) before after _ (later (handle redis name encode o c w).1)))
              | inl (inl given) ↦
                  elim (handle-gives redis name encode id o c w row delivered found given) [
                    | inl settled ↦ settled-Next settled
                    | inr ready ↦ placed-Next (inl ready)
                  ]
            ]

  Runs-keeps :
      (ps : List (Program (Unit {0}))) (w : World redis name encode)
      (trace : List (Occasion × Call)) (ps' : List (Program (Unit {0})))
      (w' : World redis name encode)
      → Runs redis name encode ps w trace ps' w'
      → All (Hands id) ps
      → IsHandedOver trace
      → Kept ps w
      → Kept ps' w'
  Runs-keeps _ _ _ _ _ (stops ps w) hands delivered kept = kept
  Runs-keeps _ _ _ _ _ (makes before after o c next w trace ps' w' run) hands delivered
        (row, found, place) =
      let (here, there) =
        All-middle (Hands id) before after (calls c next) (next (handle redis name encode o c w).1)
          hands in
      let (holds, rest) = here.1 (handle redis name encode o c w).1 in
      Runs-keeps _ _ trace ps' w' run (there rest) delivered.1
        (step-Kept before after o c next w row found here.0 delivered.0 holds place)

module _ (redis : Redis) (name : String) (encode : Payload → Result String String)
    (backend : Backend) (id : String) (named : (id == "") ≡ false) where
  programs-Hands : (actors : List Actor) → All (Hands id) (map (program_of backend) actors)
  programs-Hands [] = tt
  programs-Hands (actor ∷ actors) = (program_of-Hands backend id actor named, programs-Hands actors)

  -- No job is lost: a job in the table that is finished, or that a worker has, or that is ready in the
  -- queue, is so at every later point, or a program is about to give it on; and it has an owner and a
  -- lease exactly while it runs, if it does so at the start. That is so for workers, reapers and
  -- submissions in any interleaving, whatever fails, unless a push, a requeue or a claim of this job is
  -- refused, or an answer is lost: of the release of this job, or of a claim of the queue or a sweep of
  -- the store, which may have taken it.
  pub Runs-Kept :
      (actors : List Actor) (w : World redis name encode) (trace : List (Occasion × Call))
      (ps' : List (Program (Unit {0}))) (w' : World redis name encode)
      → Runs redis name encode (map (program_of backend) actors) w trace ps' w'
      → IsHandedOver redis name encode id trace
      → Kept redis name encode id (map (program_of backend) actors) w
      → Kept redis name encode id ps' w'
  Runs-Kept actors w trace ps' w' run delivered kept =
      Runs-keeps redis name encode id (map (program_of backend) actors) w trace ps' w' run
        (programs-Hands actors) delivered kept
