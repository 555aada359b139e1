-- ===== src/Rest/Lifecycle/Progress.antt =====
-- How far the goroutine of a server has got with the handlers of its start, by the history of its
-- steps.
use dolly.Prelude.{◌≡◌, List, [], ◌∷◌, ◌++◌, Str, Assoc, All, ◌⊎◌, inr}
use dolly.Rest.{Service, ServerEvent, started}
use dolly.Rest.Lifecycle.{
  Happening, called, closed, Worker, not_started, spawned, notifying, entering, blocked, returned,
  ended, panicked, closed_services, called_handlers,
}

abbrev pub Occurs : Happening → List Happening → Type 0
Occurs x [] = ⊥
Occurs x (y ∷ history) = (x ≡ y) ⊎ Occurs x history

-- Each of the handlers has been called on the start.
abbrev pub AllCalled : List Happening → List Str → Type 0
AllCalled history handlers = All (λ h. Occurs (called started h) history) handlers

abbrev pub Extends : List Happening → List Happening → Type 0
Extends old new = (x : Happening) → Occurs x old → Occurs x new

pub AllCalled-Extends :
    (old new : List Happening) (handlers : List Str)
    → Extends old new
    → AllCalled old handlers
    → AllCalled new handlers
AllCalled-Extends old new [] e a = tt
AllCalled-Extends old new (h ∷ handlers) e a =
    (e (called started h) a.0, AllCalled-Extends old new handlers e a.1)

pub AllCalled-append :
    (history : List Happening) (hs ks : List Str)
    → AllCalled history (hs ++ ks)
    → AllCalled history hs
AllCalled-append history [] ks a = tt
AllCalled-append history (h ∷ hs) ks a = (a.0, AllCalled-append history hs ks a.1)

pub AllCalled-snoc :
    (history : List Happening) (hs : List Str) (k : Str)
    → AllCalled history hs
    → Occurs (called started k) history
    → AllCalled history (hs ++ k ∷ [])
AllCalled-snoc history [] k a o = (o, tt)
AllCalled-snoc history (h ∷ hs) k a o = (a.0, AllCalled-snoc history hs k a.1 o)

pub closed_services-Extends :
    (services : Assoc Service) (history : List Happening)
    → Extends history (closed_services services history)
unfolding closed_services
closed_services-Extends [] history x o = o
closed_services-Extends ((name, service) ∷ services) history x o =
    closed_services-Extends services (closed service.name ∷ history) x (inr o)

pub called_handlers-Extends :
    (evt : ServerEvent) (handlers : List Str) (history : List Happening)
    → Extends history (called_handlers evt handlers history)
unfolding called_handlers
called_handlers-Extends evt [] history x o = o
called_handlers-Extends evt (h ∷ handlers) history x o =
    called_handlers-Extends evt handlers (called evt h ∷ history) x (inr o)

-- The goroutine has set the flag, and not yet cleared it.
abbrev pub HasFlag : Worker → Type 0
HasFlag not_started = ⊥
HasFlag spawned = ⊥
HasFlag (notifying rest) = ⊥
HasFlag entering = Unit
HasFlag blocked = Unit
HasFlag (returned is_closed) = Unit
HasFlag ended = ⊥
HasFlag panicked = ⊥

-- How far the goroutine has got with the handlers `early` that were registered from the beginning.
abbrev pub Progress : List Str → List Happening → Worker → Type 0
Progress early history not_started = Unit
Progress early history spawned = Unit
Progress early history (notifying rest) =
    (done : List Str) × (more : List Str) × (done ++ rest ≡ early ++ more) × AllCalled history done
Progress early history entering = AllCalled history early
Progress early history blocked = AllCalled history early
Progress early history (returned is_closed) = AllCalled history early
Progress early history ended = AllCalled history early
Progress early history panicked = AllCalled history early

pub Progress-Extends :
    (early : List Str) (old new : List Happening) (w : Worker)
    → Extends old new
    → Progress early old w
    → Progress early new w
Progress-Extends early old new not_started e p = tt
Progress-Extends early old new spawned e p = tt
Progress-Extends early old new (notifying rest) e (done, more, same, a) =
    (done, more, same, AllCalled-Extends old new done e a)
Progress-Extends early old new entering e p = AllCalled-Extends old new early e p
Progress-Extends early old new blocked e p = AllCalled-Extends old new early e p
Progress-Extends early old new (returned is_closed) e p = AllCalled-Extends old new early e p
Progress-Extends early old new ended e p = AllCalled-Extends old new early e p
Progress-Extends early old new panicked e p = AllCalled-Extends old new early e p
