-- ===== src/Echo.antt =====
-- The echo application, examples/echo: its component (echo.go) and the page of its server (main.go).
-- Echo.Stubs is the code that `weaver generate` made for it.
pub mod Stubs
use weaver_kube.Base.{ℕ, Option, none, some, Bytes, length, Error}

-- What a Go function does that returns no error: it returns a value, or panics with a text.
pub data Go (A : Type 0) : Type 0 where
  returned : A → Go A
  panics : Bytes → Go A

-- The two results of `Echo`.
pub record Reply : Type 0 where
  pub text : Bytes
  pub error : Option Error

-- `Echoer`: a component whose method acts on a state `S`.
abbrev pub Echoer : Type 0 → Type 0
Echoer S = Bytes → S → Go Reply × S

-- `echoer.Echo`, given `stringLength.Put`, which records a length in a histogram.
unfoldable pub echo : {S : Type 0} → (ℕ → S → S) → Echoer S
echo put s world = (returned (record { text = s; error = none }), put (length s) world)

pub record Page : Type 0 where
  pub status : ℕ
  pub body : Bytes

-- `err.Error()` and `http.Error`
pub record Http : Type 0 where
  pub error_text : Error → Bytes
  pub error_page : Bytes → ℕ → Page

module _ (h : Http) where
  answer_with : Reply → Option Error → Page
  answer_with r (some e) = h.error_page (h.error_text e) 500
  answer_with r none = record { status = 200; body = r.text }

module _ {S : Type 0} (h : Http) where
  answer : Go Reply × S → Go Page × S
  answer (returned r, world) = (returned (answer_with h r r.error), world)
  answer (panics text, world) = (panics text, world)

  -- The handler of `/` that `serve` installs, for the value of the parameter `s` of the request and
  -- the component that `s.echoer` refers to.
  unfoldable pub handle_root : Echoer S → Bytes → S → Go Page × S
  unfolding answer answer_with
  handle_root echoer input world = answer (echoer input world)
