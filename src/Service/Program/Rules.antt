-- ===== src/Service/Program/Rules.antt =====
-- The rules to show what the calls of a program are.
use anchora.Prelude.{
  ℕ, String, Bool, true, false, Option, none, some, List, [], ◌∷◌, ◌≡◌, refl, Result, ok, err,
  if◌then◌else◌,
}
use anchora.Service.Program.{Call, Response, Program, done, calls, ◌>>=◌, Entry, Ensures}

-- By cases on what a call returned.
pub by_response :
    {A : Type 0} (P : Result String A → Type 0)
    → ((e : String) → P (err e))
    → ((a : A) → P (ok a))
    → (response : Result String A) → P response
by_response P on_err on_ok (err e) = on_err e
by_response P on_err on_ok (ok a) = on_ok a

pub by_test : (P : Bool → Type 0) → P true → P false → (b : Bool) → P b
by_test P on_true on_false true = on_true
by_test P on_true on_false false = on_false

pub by_option :
    {A : Type 0} (P : Option A → Type 0) → P none → ((a : A) → P (some a)) → (o : Option A) → P o
by_option P on_none on_some none = on_none
by_option P on_none on_some (some a) = on_some a

pub by_list :
    {A : Type 0} (P : List A → Type 0)
    → P []
    → ((a : A) (l : List A) → P (a ∷ l))
    → (l : List A) → P l
by_list P on_nil on_cons [] = on_nil
by_list P on_nil on_cons (a ∷ l) = on_cons a l

pub by_claim :
    (P : ℕ × Bool → Type 0)
    → ((n : ℕ) → P (n, true))
    → ((n : ℕ) → P (n, false))
    → (claim : ℕ × Bool) → P claim
by_claim P on_true on_false (n, true) = on_true n
by_claim P on_true on_false (n, false) = on_false n

module _ {A B : Type 0} (P : List Entry → Call → Type 0) (Q : List Entry → A → Type 0)
    (R : List Entry → B → Type 0) where
  pub Ensures->>= :
      (p : Program A) (f : A → Program B) (history : List Entry)
      → Ensures P Q history p
      → ((history' : List Entry) (a : A) → Q history' a → Ensures P R history' (f a))
      → Ensures P R history (p >>= f)
  Ensures->>= (done a) f history h later = later history a h
  Ensures->>= (calls c next) f history h later = (
    h.0,
    λ response.
        Ensures->>= (next response) f (record { made = c; response = response } ∷ history)
          (h.1 response) later,
  )

module _ {A : Type 0} (P : List Entry → Call → Type 0) (Q : List Entry → A → Type 0) where
  pub Ensures-if :
      (test : Bool) (p q : Program A) (history : List Entry)
      → (test ≡ true → Ensures P Q history p)
      → (test ≡ false → Ensures P Q history q)
      → Ensures P Q history (if test then p else q)
  Ensures-if true p q history on_true on_false = on_true refl
  Ensures-if false p q history on_true on_false = on_false refl

  pub Ensures-elim :
      {E B : Type 0} (r : Result E B) (f : E → Program A) (g : B → Program A) (history : List Entry)
      → ((e : E) → r ≡ err e → Ensures P Q history (f e))
      → ((b : B) → r ≡ ok b → Ensures P Q history (g b))
      → Ensures P Q history (elim r [ err e ↦ f e | ok b ↦ g b ])
  Ensures-elim (err e) f g history on_err on_ok = on_err e refl
  Ensures-elim (ok b) f g history on_err on_ok = on_ok b refl

pub Ensures-weaken :
    {A : Type 0} (P P' : List Entry → Call → Type 0) (Q Q' : List Entry → A → Type 0)
    → ((h : List Entry) (c : Call) → P h c → P' h c)
    → ((h : List Entry) (a : A) → Q h a → Q' h a)
    → (p : Program A) (history : List Entry) → Ensures P Q history p
    → Ensures P' Q' history p
Ensures-weaken P P' Q Q' call result (done a) history h = result history a h
Ensures-weaken P P' Q Q' call result (calls c next) history h = (
  call history c h.0,
  λ response.
      Ensures-weaken P P' Q Q' call result (next response)
        (record { made = c; response = response } ∷ history) (h.1 response),
)

-- Every call of the program is one of these.
abbrev pub Makes : {A : Type 0} → (Call → Type 0) → Program A → Type 0
Makes K (done a) = Unit {0}
Makes K (calls c next) = K c × ((response : Response c) → Makes K (next response))

pub Makes->>= :
    {A B : Type 0} (K : Call → Type 0) (p : Program A) (f : A → Program B)
    → Makes K p
    → ((a : A) → Makes K (f a))
    → Makes K (p >>= f)
Makes->>= K (done a) f m n = n a
Makes->>= K (calls c next) f m n = (m.0, λ r. Makes->>= K (next r) f (m.1 r) n)

pub Makes-if :
    {A : Type 0} (K : Call → Type 0) (p q : Program A) (b : Bool)
    → Makes K p
    → Makes K q
    → Makes K (if b then p else q)
Makes-if K p q true m n = m
Makes-if K p q false m n = n

pub Makes-elim :
    {A E B : Type 0} (K : Call → Type 0) (r : Result E B) (f : E → Program A) (g : B → Program A)
    → ((e : E) → Makes K (f e))
    → ((b : B) → Makes K (g b))
    → Makes K (elim r [ err e ↦ f e | ok b ↦ g b ])
Makes-elim K (err e) f g on_err on_ok = on_err e
Makes-elim K (ok b) f g on_err on_ok = on_ok b

pub Makes-weaken :
    {A : Type 0} (K K' : Call → Type 0)
    → ((c : Call) → K c → K' c)
    → (p : Program A) → Makes K p
    → Makes K' p
Makes-weaken K K' call (done a) m = tt
Makes-weaken K K' call (calls c next) m =
    (call c m.0, λ response. Makes-weaken K K' call (next response) (m.1 response))

pub Makes-of_Ensures :
    {A : Type 0} (P : List Entry → Call → Type 0) (Q : List Entry → A → Type 0) (K : Call → Type 0)
    → ((h : List Entry) (c : Call) → P h c → K c)
    → (p : Program A) (history : List Entry) → Ensures P Q history p
    → Makes K p
Makes-of_Ensures P Q K call (done a) history h = tt
Makes-of_Ensures P Q K call (calls c next) history h =
    (call history c h.0, λ response. Makes-of_Ensures P Q K call (next response) _ (h.1 response))

-- Calls that keep `I` are allowed where they are such calls.
pub Ensures-of_Makes :
    {A : Type 0} (P : List Entry → Call → Type 0) (I : List Entry → Type 0) (K : Call → Type 0)
    → ((h : List Entry) (c : Call) → K c → P h c)
    → ((h : List Entry) (c : Call) (r : Response c)
        → K c
        → I h
        → I (record { made = c; response = r } ∷ h))
    → (p : Program A) (history : List Entry) → I history
    → Makes K p
    → Ensures P (λ h a. I h) history p
Ensures-of_Makes P I K call keep (done a) history i m = i
Ensures-of_Makes P I K call keep (calls c next) history i m = (
  call history c m.0,
  λ r. Ensures-of_Makes P I K call keep (next r) _ (keep history c r m.0 i) (m.1 r),
)
