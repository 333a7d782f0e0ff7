-- ===== src/Charts/Settings.antt =====
-- The fixed part of the charts: the style of each dataset, and the options, each under its path in the object
-- that the hook hands to the chart library. A number or a truth value is written as the text of its literal.
use cachestack.Base.{List, [], ◌∷◌, ◌++◌}
use cachestack.Text.{Text, text}
use cachestack.View.{Property, fixed, styled}
use Prim.Native.String.{String}

-- `datasets[0]` of the line chart, without its data.
unfoldable pub line_dataset : (label color : Text) → List Property
line_dataset label color =
    styled "label" label
    ∷ styled "borderColor" color
    ∷ fixed "borderWidth" "1.5"
    ∷ fixed "fill" "true"
    ∷ styled "backgroundColor" (color ++ text "18")
    ∷ fixed "tension" "0.4"
    ∷ fixed "pointRadius" "0"
    ∷ []

-- A dataset of the bar chart, without its data.
unfoldable pub bar_dataset : (background hover : String) → List Property
bar_dataset background hover =
    fixed "backgroundColor" background
    ∷ fixed "hoverBackgroundColor" hover
    ∷ fixed "borderRadius" "2"
    ∷ fixed "borderWidth" "0"
    ∷ []

abbrev pub bar_datasets : List (List Property)
bar_datasets = bar_dataset "#60a5fa55" "#60a5fa" ∷ bar_dataset "#4ade8088" "#4ade80" ∷ []

unfoldable pub line_options : List Property
line_options =
    fixed "responsive" "true"
    ∷ fixed "maintainAspectRatio" "false"
    ∷ fixed "animation.duration" "0"
    ∷ fixed "plugins.legend.display" "false"
    ∷ fixed "plugins.tooltip.enabled" "true"
    ∷ fixed "plugins.tooltip.backgroundColor" "#18181b"
    ∷ fixed "plugins.tooltip.borderColor" "rgba(255,255,255,0.1)"
    ∷ fixed "plugins.tooltip.borderWidth" "1"
    ∷ fixed "plugins.tooltip.titleColor" "#8e8e9e"
    ∷ fixed "plugins.tooltip.bodyColor" "#e8e8ed"
    ∷ fixed "plugins.tooltip.bodyFont.family" "'IBM Plex Mono'"
    ∷ fixed "plugins.tooltip.padding" "8"
    ∷ fixed "scales.x.display" "false"
    ∷ fixed "scales.y.display" "true"
    ∷ fixed "scales.y.grid.color" "rgba(255,255,255,0.04)"
    ∷ fixed "scales.y.ticks.color" "#5c5c6e"
    ∷ fixed "scales.y.ticks.font.family" "'IBM Plex Mono'"
    ∷ fixed "scales.y.ticks.font.size" "9"
    ∷ fixed "scales.y.ticks.maxTicksLimit" "4"
    ∷ fixed "scales.y.border.display" "false"
    ∷ []

unfoldable pub bar_options : List Property
bar_options =
    fixed "responsive" "true"
    ∷ fixed "maintainAspectRatio" "false"
    ∷ fixed "animation.duration" "300"
    ∷ fixed "plugins.legend.display" "false"
    ∷ fixed "plugins.tooltip.enabled" "true"
    ∷ fixed "plugins.tooltip.backgroundColor" "#18181b"
    ∷ fixed "plugins.tooltip.borderColor" "rgba(255,255,255,0.1)"
    ∷ fixed "plugins.tooltip.borderWidth" "1"
    ∷ fixed "plugins.tooltip.titleColor" "#8e8e9e"
    ∷ fixed "plugins.tooltip.bodyColor" "#e8e8ed"
    ∷ fixed "plugins.tooltip.bodyFont.family" "'IBM Plex Mono'"
    ∷ fixed "plugins.tooltip.padding" "8"
    ∷ fixed "scales.x.display" "false"
    ∷ fixed "scales.y.display" "true"
    ∷ fixed "scales.y.grid.color" "rgba(255,255,255,0.04)"
    ∷ fixed "scales.y.ticks.color" "#5c5c6e"
    ∷ fixed "scales.y.ticks.font.family" "'IBM Plex Mono'"
    ∷ fixed "scales.y.ticks.font.size" "9"
    ∷ fixed "scales.y.ticks.maxTicksLimit" "4"
    ∷ fixed "scales.y.border.display" "false"
    ∷ []
