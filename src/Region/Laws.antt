-- ===== src/Region/Laws.antt =====
-- What the side bar shows of the region.
use cachestack.Base.{
  ◌≡◌, ◌≢◌, ◌⊎◌, refl, Bool, true, false, [], ◌∷◌, ◌++◌, All-append, if◌then◌else◌, inl, inr, arith,
}
use cachestack.Text.{Text, text, is_space, or_else, squeeze_spaces, Unicode}
use cachestack.Text.Spaces.{NoSpace, squeeze_spaces-NoSpace, squeeze_spaces-nil}
use cachestack.Region.{
  RegionInfo, fallback, Geo, GeoAnswer, rejected, nothing, answered, label_of, located, detect,
  footer_text, instance_text,
}

or_else-ne : (s t : Text) → t ≢ [] → or_else s t ≢ []
or_else-ne [] t h = h
or_else-ne (c ∷ s) t h = λ e. ground arith

or_else-cases : (s t : Text) → (or_else s t ≡ s) ⊎ (s ≡ [])
or_else-cases [] t = inr refl
or_else-cases (c ∷ s) t = inl refl

region-NoSpace : NoSpace (text "_REGION")
unfolding is_space
region-NoSpace = ground arith

local-NoSpace : NoSpace (text "LOCAL_REGION")
unfolding is_space
local-NoSpace = ground arith

underscore : is_space b'_' ≡ false
unfolding is_space
underscore = refl

or_else-NoSpace : (s t : Text) → NoSpace s → NoSpace (or_else s t) ⊎ (s ≡ [])
or_else-NoSpace [] t h = inr refl
or_else-NoSpace (c ∷ s) t h = inl h

module _ (U : Unicode) where
  open U use {to_upper}

  label_of-NoSpace :
      (city country : Text) → NoSpace (label_of U city country) ⊎ (to_upper city ≡ [])
  unfolding label_of
  label_of-NoSpace city country =
      let slug = squeeze_spaces b'_' (to_upper city) in
      elim (or_else-NoSpace slug (to_upper country)
        (squeeze_spaces-NoSpace b'_' (to_upper city) underscore)) [
          | inl h ↦ inl (
              All-append (λ c. is_space c ≡ false) (or_else slug (to_upper country))
                (text "_REGION") h region-NoSpace)
          | inr e ↦ inr (squeeze_spaces-nil b'_' (to_upper city) e)
        ]

  -- What the side bar shows of a region that is no longer loading.
  pub record IsShown (r : RegionInfo) : Type 0 where
    pub footer : footer_text r ≢ []
    pub instance_line : (slug : Text) × (instance_text r ≡ slug ++ text "_REGION")
    pub spaceless : NoSpace (instance_text r) ⊎ (to_upper r.city ≡ [])

  local-IsShown : IsShown (record fallback { loading = false })
  unfolding footer_text instance_text
  local-IsShown = record {
    footer = λ e. ground arith;
    instance_line = (text "LOCAL", refl);
    spaceless = inl local-NoSpace;
  }

  located-IsShown : (g : Geo) → IsShown (located U g)
  unfolding footer_text instance_text located label_of
  located-IsShown g = record {
    footer = or_else-ne (located U g).display (text "Local") (λ e. ground arith);
    instance_line = (_, refl);
    spaceless = label_of-NoSpace (located U g).city (located U g).country;
  }

  -- Whatever the service answers, the side bar shows a footer that is not empty, and an instance line
  -- that ends in "_REGION" and holds no white space unless the upper case of the city is empty.
  pub detect-IsShown : (a : GeoAnswer) → IsShown (detect U a)
  unfolding detect
  detect-IsShown rejected = local-IsShown
  detect-IsShown nothing = local-IsShown
  detect-IsShown (answered g) = either g.failed (located U g) (located-IsShown g)
    where
      either :
          (b : Bool) (r : RegionInfo)
          → IsShown r
          → IsShown (if b then record fallback { loading = false } else r)
      either true r h = local-IsShown
      either false r h = h
