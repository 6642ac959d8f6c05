-- ===== src/Http/Rpc/Table.antt =====
-- What holds of every handler of a binding's table holds of the one that is looked up.
use a2akit.Prelude.{String, ◌≡◌, some, [], ◌∷◌, ◌==◌, eq_iff, Bool-cases, inl, inr, subst}
use a2akit.Dict
use a2akit.Dict.{Dict}
use a2akit.Http.Rpc.{Handler}

abbrev pub AllHandlers : (String → Handler → Type 0) → Dict Handler → Type 0
AllHandlers P [] = Unit
AllHandlers P ((k, h) ∷ d) = P k h × AllHandlers P d

pub get-AllHandlers :
    (P : String → Handler → Type 0) (d : Dict Handler) (k : String) (h : Handler)
    → AllHandlers P d
    → Dict.get d k ≡ some h
    → P k h
unfolding Dict.get
get-AllHandlers P [] k h all found = cc
get-AllHandlers P ((j, g) ∷ d) k h (here, rest) found = elim (Bool-cases (j == k)) [
  | inl e ↦
      let same : g ≡ h = cc (rw e at found) in
      subst (λ x. P x h) ((eq_iff j k).0 e) (subst (λ x. P j x) same here)
  | inr e ↦ get-AllHandlers P d k h rest (rw e at found)
]
