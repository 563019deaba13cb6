-- ===== src/Node/RouteRequest/Places.antt =====
-- Which addresses behind a PREQ the search for the node's own looks at.
use ajou_etri_project.Base.{◌≡◌, ◌≢◌, none, some, List, [], ◌∷◌, ◌==◌, arith}
use ajou_etri_project.Msg.{Addr}
use ajou_etri_project.Node.RouteRequest.{is_repeated}

-- A PREQ that travelled three hops is looked at in places 0, 1 and 3, and not in place 2: with other
-- nodes in the first two places, whether it is dropped does not depend on the third, and where nothing
-- is behind the three addresses the search reads past the end of the message.
pub is_repeated-third :
    (me a b : Addr)
    → me ≢ a
    → me ≢ b
    → (is_repeated me 3 0 0 (a ∷ b ∷ me ∷ []) ≡ none)
      × ((d : Addr) (l : List Addr) → is_repeated me 3 0 0 (a ∷ b ∷ me ∷ d ∷ l) ≡ some (me == d))
unfolding is_repeated
is_repeated-third me a b p q = (ground arith, λ d l. ground arith)
