-- ===== src/Region.antt =====
-- frontend/src/hooks/useRegion.ts, the region shown in components/Sidebar.tsx, and the notice of a
-- detected region in frontend/src/App.tsx. The answer of ipapi.co is a parameter.
pub mod Laws
use cachestack.Base.{
  Bool, true, false, not, ◌||◌, List, [], ◌∷◌, ◌++◌, Option, none, some, filter, if◌then◌else◌,
}
use cachestack.Text.{Text, text, text_eq, is_empty, or_else, join, squeeze_spaces, Unicode}
use cachestack.Types.{info}
use cachestack.Notifications.{Queue, push}

pub record RegionInfo : Type 0 where
  pub city : Text
  pub region_name : Text
  pub country : Text
  pub country_name : Text
  pub label : Text
  pub display : Text
  pub loading : Bool

abbrev pub fallback : RegionInfo
fallback = record {
  city = [];
  region_name = [];
  country = [];
  country_name = [];
  label = text "LOCAL_REGION";
  display = text "Local";
  loading = true;
}

-- The fields of the answer that are read; `failed` is `data.error`.
pub record Geo : Type 0 where
  pub failed : Bool
  pub city : Option Text
  pub region : Option Text
  pub country_code : Option Text
  pub country : Option Text
  pub country_name : Option Text

-- A rejected fetch or a body that does not parse; the body `null`; a body.
pub data GeoAnswer : Type 0 where
  rejected : GeoAnswer
  nothing : GeoAnswer
  answered : Geo → GeoAnswer

abbrev pub given : Option Text → Text → Text
given none t = t
given (some s) t = s

abbrev pub first_given : Option Text → Option Text → Option Text
first_given none b = b
first_given (some a) b = some a

module _ (U : Unicode) where
  open U use {to_upper}

  -- `slugCity ? `${slugCity}_REGION` : `${country.toUpperCase()}_REGION``
  unfoldable pub label_of : (city country : Text) → Text
  label_of city country =
      or_else (squeeze_spaces b'_' (to_upper city)) (to_upper country) ++ text "_REGION"

  -- `[city, countryName].filter(Boolean).join(', ') || 'Local'`
  unfoldable pub display_of : (city country_name : Text) → Text
  display_of city country_name =
      or_else (join (text ", ") (filter (λ t. not (is_empty t)) (city ∷ country_name ∷ [])))
        (text "Local")

  unfoldable pub located : Geo → RegionInfo
  located g =
      let city = given g.city [] in
      let country = given (first_given g.country_code g.country) [] in
      let country_name = given g.country_name country in
      record {
        city = city;
        region_name = given g.region [];
        country = country;
        country_name = country_name;
        label = label_of city country;
        display = display_of city country_name;
        loading = false;
      }

  unfoldable pub detect : GeoAnswer → RegionInfo
  detect rejected = record fallback { loading = false }
  detect nothing = record fallback {
    loading = false;
    label = text "LOCAL_REGION";
    display = text "Local";
  }
  detect (answered g) =
      if g.failed
      then record fallback { loading = false; label = text "LOCAL_REGION"; display = text "Local" }
      else located g

-- The effect on `[region.label]`: it runs when the label has changed.
unfoldable pub announce_region : (before after : RegionInfo) → Text → Queue → Queue
announce_region before after clock q =
    if text_eq before.label after.label || is_empty after.city || text_eq after.city (text "LOCAL")
    then q
    else (push (text "Region detected: " ++ after.label) info 4000 clock q).0

-- The instance line and the footer of the side bar.
unfoldable pub instance_text : RegionInfo → Text
instance_text r = if r.loading then text "..." else r.label

unfoldable pub footer_text : RegionInfo → Text
footer_text r = if r.loading then text "..." else or_else r.display (text "Local")
