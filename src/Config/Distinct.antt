-- ===== src/Config/Distinct.antt =====
-- The cameras that `_parse_cameras` of videobackup/config.py accepts.
use videobackup.Base.{
  ℕ, ◌+◌, ◌≡◌, refl, subst, sym, ◌∙◌, false, not, List, [], ◌∷◌, map, arith, inl, inr,
}
use videobackup.Base.{Bool-cases, All, any_of, Text, codes, same, is_among}
use videobackup.Base.Effects.{ok}
use videobackup.Base.Results.{Returns, Returns-bind, Returns-reject_if, Returns-weaken}
use videobackup.Base.Values.{
  Value, null, text, list, dict, Items, nil, cons, Fields, get_default, is_truthy,
}
use videobackup.Config.{Camera}
use videobackup.Config.Load.{Python, parse_camera, parse_entries, parse_cameras, url_of}
use videobackup.Spool.Names.{same_sym}

-- Each entry that is a mapping has a text as its name.
abbrev pub HasTextNames : Items → Type 0
HasTextNames nil = Unit
HasTextNames (cons (dict d) vs) =
    ((s : Text) × (get_default (codes "name") null d ≡ text s)) × HasTextNames vs
HasTextNames (cons _ vs) = HasTextNames vs

-- No two cameras have one name.
abbrev pub AreDistinct : List Camera → Type 0
AreDistinct [] = Unit
AreDistinct (c ∷ cs) = All (λ d. same c.name d.name ≡ false) cs × AreDistinct cs

-- What is relied on of `str` and `==`, for texts.
pub record KnowsTexts (py : Python) : Type 0 where
  pub str_text : (s : Text) → py.str (text s) ≡ s
  pub equal_text : (s t : Text) → py.equal (text s) (text t) ≡ same s t

module _ (py : Python) (knows : KnowsTexts py) where
  any-is_among :
      (s : Text) (names : List Text)
      → any_of (py.equal (text s)) (map text names) ≡ is_among s names
  unfolding is_among
  any-is_among s [] = refl
  any-is_among s (n ∷ names) = rw (knows.equal_text s n, any-is_among s names) refl

  -- The camera is new, and its name is what is kept of it.
  abbrev IsNew : List Text → Value × Camera → Type 0
  IsNew names one = (one.0 ≡ text one.1.name) × (is_among one.1.name names ≡ false)

  parse_camera-Returns :
      (i : ℕ) (names : List Text) (d : Fields) (s : Text)
      → get_default (codes "name") null d ≡ text s
      → Returns (IsNew names) (parse_camera py i (map text names) (dict d))
  unfolding parse_camera
  parse_camera-Returns i names d s h = rw h (
      Returns-reject_if (IsNew names) (not (is_truthy (text s))) _ _ λ _.
        Returns-reject_if (IsNew names) (not (is_truthy (url_of d))) _ _ λ _.
          Returns-reject_if (IsNew names) (any_of (py.equal (text s)) (map text names)) _ _
            λ e. rw (knows.str_text s) (refl, sym (any-is_among s names) ∙ e))

  -- All cameras are new, and no two of them have one name.
  abbrev AreNew : List Text → List Camera → Type 0
  AreNew names cs = All (λ c. is_among c.name names ≡ false) cs × AreDistinct cs

  split :
      (name : Text) (names : List Text) (cs : List Camera)
      → All (λ c. is_among c.name (name ∷ names) ≡ false) cs
      → All (λ c. same name c.name ≡ false) cs × All (λ c. is_among c.name names ≡ false) cs
  unfolding is_among
  split name names [] _ = (tt, tt)
  split name names (c ∷ cs) (h, hs) =
      let ih = split name names cs hs in
      elim (Bool-cases (same c.name name)) [
        | inl e ↦ absurd (ground arith)
        | inr e ↦ ((same_sym name c.name ∙ e, ih.0), (ground arith, ih.1))
      ]

  parse_entries-Returns :
      (i : ℕ) (names : List Text) (vs : Items)
      → HasTextNames vs
      → Returns (AreNew names) (parse_entries py i (map text names) vs)
  unfolding parse_entries
  parse_entries-Returns i names nil _ = (tt, tt)
  parse_entries-Returns i names (cons (dict d) vs) ((s, h), hs) =
      Returns-bind (IsNew names) (AreNew names) (parse_camera py i (map text names) (dict d)) _
        (parse_camera-Returns i names d s h)
        λ one fresh. rw fresh.0 (
          Returns-bind (AreNew (one.1.name ∷ names)) (AreNew names) _ _
            (parse_entries-Returns (i + 1) (one.1.name ∷ names) vs hs)
            λ rest news.
              let parts = split one.1.name names rest news.0 in
              ((fresh.1, parts.1), (parts.0, news.1)))
  parse_entries-Returns i names (cons _ vs) _ = unfold parse_camera in tt

  -- The cameras that `_parse_cameras` returns have distinct names, where each entry of the list that
  -- is a mapping names its camera by a text, `str` of a text is that text, and two texts are equal
  -- where they have the same characters.
  pub parse_cameras-AreDistinct :
      (vs : Items) (cs : List Camera)
      → HasTextNames vs
      → parse_cameras py (list vs) ≡ ok cs
      → AreDistinct cs
  unfolding parse_cameras
  parse_cameras-AreDistinct nil cs _ h = cc
  parse_cameras-AreDistinct (cons v vs) cs names h = subst (Returns AreDistinct) h (
      Returns-weaken (AreNew []) AreDistinct (parse_entries py 0 [] (cons v vs)) (λ _ news. news.1)
        (parse_entries-Returns 0 [] (cons v vs) names))
