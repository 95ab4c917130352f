-- ===== src/Db/Exec/Zoom.antt =====
-- An action on a part of the tables as an action on all of them.
use mathlib.Core.Option
use lisa_lashes_demo.Base.{◌≡◌, refl, sym, subst, ap, ◌∙◌, Option, none, some}
use lisa_lashes_demo.Db.Exec.{World, Result, ok, throw, Exec}
use lisa_lashes_demo.Db.Exec.Triple.{Outcome, Triple}

-- `other` is what a change of the part leaves.
pub record Lens (T S U : Type 0) : Type 0 where
  pub get : T → S
  pub set : S → T → T
  pub other : T → U
  pub get_set : (s : S) (t : T) → get (set s t) ≡ s
  pub other_set : (s : S) (t : T) → other (set s t) ≡ other t

module _ {T S U : Type 0} (lens : Lens T S U) where
  abbrev pub focus : World T → World S
  focus w = record {
    tables = lens.get w.tables;
    saved = Option.map lens.get w.saved;
    clock = w.clock;
    fails = w.fails;
    now = w.now;
  }

  abbrev pub unfocus : World T → World S → World T
  unfocus w w' = record {
    tables = lens.set w'.tables w.tables;
    saved = Option.map (λ s. lens.set s (Option.get_or w.saved w.tables)) w'.saved;
    clock = w'.clock;
    fails = w'.fails;
    now = w'.now;
  }

  focus-unfocus : (w : World T) (w' : World S) → focus (unfocus w w') ≡ w'
  focus-unfocus w w' =
      ap (λ (s : S). record w' { tables = s; saved = Option.map lens.get (unfocus w w').saved })
        (lens.get_set w'.tables w.tables)
      ∙ ap (λ (o : Option S). record w' { saved = o })
          (saved_lem (Option.get_or w.saved w.tables) w'.saved)
    where
      saved_lem :
          (t : T) (o : Option S) → Option.map lens.get (Option.map (λ s. lens.set s t) o) ≡ o
      saved_lem t none = refl
      saved_lem t (some s) = ap some (lens.get_set s t)

module _ {T S U A : Type 0} (lens : Lens T S U) where
  abbrev pub zoomed : World T → Result A × World S → Result A × World T
  zoomed w (r, w') = (r, unfocus lens w w')

  unfoldable pub zoom : Exec S A → Exec T A
  zoom m w = zoomed w (m (focus lens w))

  pub zoomed-Outcome :
      (Q : A → World S → Type 0) (E : World S → Type 0) (w : World T) (r : Result A × World S)
      → Outcome Q E r
      → Outcome
          (λ a x. Q a (focus lens x) × (lens.other x.tables ≡ lens.other w.tables))
          (λ x. E (focus lens x) × (lens.other x.tables ≡ lens.other w.tables))
          (zoomed w r)
  zoomed-Outcome Q E w (ok a, w') o =
      (subst (Q a) (sym (focus-unfocus lens w w')) o, lens.other_set w'.tables w.tables)
  zoomed-Outcome Q E w (throw e, w') o =
      (subst E (sym (focus-unfocus lens w w')) o, lens.other_set w'.tables w.tables)

  -- What an action does to its part it does to that part of all, and the other part stays.
  pub Triple-zoom :
      {P E : World S → Type 0} {Q : A → World S → Type 0} (m : Exec S A) (rest : U)
      → Triple P m Q E
      → Triple
          (λ w. P (focus lens w) × (lens.other w.tables ≡ rest))
          (zoom m)
          (λ a w. Q a (focus lens w) × (lens.other w.tables ≡ rest))
          (λ w. E (focus lens w) × (lens.other w.tables ≡ rest))
  unfolding zoom
  Triple-zoom {E} {Q} m rest t = record {
    at = λ w p.
        subst
          (λ (u : U).
            Outcome (λ a x. Q a (focus lens x) × (lens.other x.tables ≡ u))
              (λ x. E (focus lens x) × (lens.other x.tables ≡ u)) (zoom m w))
          p.1 (zoomed-Outcome Q E w (m (focus lens w)) (t.at (focus lens w) p.0));
  }
