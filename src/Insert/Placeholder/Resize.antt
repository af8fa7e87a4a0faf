-- ===== src/Insert/Placeholder/Resize.antt =====
-- What sizing and resizing keep.
use nafir.Base.{ℕ, ◌≡◌, codes, refl}
use nafir.Base.Int.{ℤ, ◌+ℤ◌}
use nafir.Insert.Placeholder.{
  Sizing, flex, auto, percent, explicit, apply_placeholder_sizing_styles,
  materialize_placeholder_width, Edge, east, west, south, north, Frame,
}

-- The edge opposite to the dragged one: where it stands in the parent.
abbrev pub fixed_edge : Edge → Frame → ℤ
fixed_edge east f = f.margin_left
fixed_edge west f = f.margin_left +ℤ f.width
fixed_edge south f = f.margin_top
fixed_edge north f = f.margin_top +ℤ f.height

-- Whatever its sizing, a placeholder that is materialized has the explicit kind, and materializing
-- it again, at any current width, changes nothing.
pub materialize-apply :
    (sizing : Sizing) (offset_width again : ℕ)
    → ((materialize_placeholder_width offset_width (apply_placeholder_sizing_styles sizing)).kind
        ≡ codes "explicit")
      × (materialize_placeholder_width again
            (materialize_placeholder_width offset_width (apply_placeholder_sizing_styles sizing))
          ≡ materialize_placeholder_width offset_width (apply_placeholder_sizing_styles sizing))
unfolding materialize_placeholder_width apply_placeholder_sizing_styles
materialize-apply (flex f) offset_width again = (refl, refl)
materialize-apply auto offset_width again = (refl, refl)
materialize-apply percent offset_width again = (refl, refl)
materialize-apply (explicit width) offset_width again = (refl, refl)
