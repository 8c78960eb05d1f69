-- ===== src/Approval/Registry.antt =====
-- tools/api/internal/approval/executor.go: the handlers of the actions, by name.
use balvibot.Prelude.{
  ◌≡◌, refl, ap, ◌∙◌, Bool, true, false, Option, none, some, List, [], ◌∷◌, ◌++◌, Str, codes, eqs,
  eqs_iff, arith, if◌then◌else◌,
}
use balvibot.Errors.{unknown_action, wrap, quote}
use balvibot.Store.Exec.{Exec, fail}

abbrev pub Handler : Type 0
Handler = Str → Exec (Unit {0})

pub record Registry : Type 0 where
  pub handlers : List (Str × Handler)

-- NewRegistry
abbrev pub new_registry : Registry
new_registry = record { handlers = [] }

lookup : Str → List (Str × Handler) → Option Handler
lookup action [] = none
lookup action ((name, h) ∷ rest) = if eqs name action then some h else lookup action rest

set : Str → Handler → List (Str × Handler) → List (Str × Handler)
set action h [] = (action, h) ∷ []
set action h ((name, g) ∷ rest) =
    if eqs name action then (name, h) ∷ rest else (name, g) ∷ set action h rest

-- h, ok := r.handlers[action]
unfoldable pub handler_of : Registry → Str → Option Handler
unfolding lookup
handler_of r action = lookup action r.handlers

-- Register
unfoldable pub register : Str → Handler → Registry → Registry
unfolding set
register action h r = record { handlers = set action h r.handlers }

abbrev run_handler : Str → Str → Option Handler → Exec (Unit {0})
run_handler action args none = fail (wrap (codes "") unknown_action (codes ": " ++ quote action))
run_handler action args (some h) = h args

-- Dispatch
unfoldable pub dispatch : Registry → Str → Str → Exec (Unit {0})
unfolding handler_of quote
dispatch r action args = run_handler action args (handler_of r action)

-- Has
unfoldable pub has : Registry → Str → Bool
unfolding handler_of
has r action = elim (handler_of r action) [ none ↦ false | some h ↦ true ]

lookup-set :
    (name action : Str) (h : Handler) (l : List (Str × Handler))
    → lookup name (set action h l) ≡ (if eqs action name then some h else lookup name l)
unfolding lookup set
lookup-set name action h [] = refl
lookup-set name action h ((other, g) ∷ rest) = ground (
  arith,
  eqs_iff action name,
  eqs_iff other action,
  eqs_iff other name,
  lookup-set name action h rest,
)

pub handler_of-register :
    (name action : Str) (h : Handler) (r : Registry)
    → handler_of (register action h r) name
      ≡ (if eqs action name then some h else handler_of r name)
unfolding handler_of register
handler_of-register name action h r = lookup-set name action h r.handlers

picked :
    (action args : Str) (h : Handler) (o : Option Handler) (b : Bool)
    → run_handler action args (if b then some h else o)
      ≡ (if b then h args else run_handler action args o)
picked action args h o true = refl
picked action args h o false = refl

-- After a handler is registered, dispatching its name runs it, also where another one was
-- registered under that name before, and dispatching another name does what it did before.
pub dispatch-register :
    (name action args : Str) (h : Handler) (r : Registry)
    → dispatch (register name h r) action args
      ≡ (if eqs name action then h args else dispatch r action args)
unfolding dispatch
dispatch-register name action args h r =
    ap (run_handler action args) (handler_of-register action name h r)
    ∙ picked action args h (handler_of r action) (eqs name action)
