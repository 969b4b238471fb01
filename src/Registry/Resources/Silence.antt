-- ===== src/Registry/Resources/Silence.antt =====
-- What the resource operations do not report.
use coap_gateway.Prelude.{
  ◌-◌, ◌≤◌, ◌≡◌, refl, true, Option, none, some, List, [], ◌∷◌, ◌++◌, arith, length, length-append,
  length-drop, Bool-cases, ◌⊎◌, inl, inr, take, drop,
}
use coap_gateway.Prelude.Text.{Text, codes}
use coap_gateway.Go.{Outcome, ret, panics, ◌>>=◌}
use coap_gateway.Registry.World.{Engine, World, Err, driver, tick, exec, query_row, rows_affected}
use coap_gateway.Registry.Statements.{publish, select_resources}
use coap_gateway.Registry.Resources.{publish_resource, splice, join_rows, find_device}

-- Whatever happens, PublishResource returns no error: it returns nil, also where no device has the
-- uuid, or it panics, and it panics exactly if the statement fails or is refused.
pub publish_resource_silent :
    (e : Engine) (json device_id : Text) (w : World)
    → ((publish_resource e json device_id w).0 ≡ ret none)
      ⊎ (((publish_resource e json device_id w).0 ≡ panics)
          × ((e.fault w.calls ≡ true) ⊎ (publish e json device_id w.db ≡ none)))
unfolding publish_resource exec rows_affected ◌>>=◌
publish_resource_silent e json device_id w = ground arith

-- The loop's string never gets shorter than two bytes, so its slices are in bounds.
splice_long :
    (links temp : Text)
    → 2 ≤ length links
    → (links' : Text) × (splice links temp ≡ ret links') × (2 ≤ length links')
unfolding splice
splice_long links temp h =
    let front = take (length links - 2) links in
    let back = drop (length links - 1) links in
    (
      front ++ codes "," ++ temp ++ back,
      ground arith,
      omega (
        arith,
        length-append (front ++ codes "," ++ temp) back,
        length-append (front ++ codes ",") temp,
        length-append front (codes ","),
        length-drop (length links - 1) links,
      ),
    )

-- What FindDevice can end with: an empty string, with an error or without.
abbrev pub Empty : Outcome (Text × Option Err) → Type 0
Empty o = (o ≡ ret ([], none)) ⊎ (o ≡ ret ([], some driver))

join_rows-Empty :
    (e : Engine) (rows : List (Option Text)) (links temp : Text) (w : World)
    → 2 ≤ length links
    → Empty (join_rows e rows links temp w).0
unfolding join_rows
join_rows-Empty e [] links temp w h = inl refl
join_rows-Empty e (none ∷ rows) links temp w h =
    let (l, q, long) = splice_long links temp h in rw q (inr refl)
join_rows-Empty e (some row ∷ rows) links temp w h =
    let (l, q, long) = splice_long links row h in rw q (join_rows-Empty e rows l row w long)

-- FindDevice never panics on its slices, and it never returns a resource: in every world the
-- result is the empty string, with no error or with that of the query or of the scan of a NULL.
pub find_device-Empty :
    (e : Engine) (user_id : Text) (w : World) → Empty (find_device e user_id w).0
unfolding find_device query_row ◌>>=◌
find_device-Empty e user_id w = elim (Bool-cases (e.fault w.calls)) [
  | inl f ↦ rw (f, find_device, query_row) (inr refl)
  | inr f ↦
      rw (f, find_device, query_row)
        (join_rows-Empty e (select_resources e user_id w.db) (codes "[]") [] (tick w) (omega arith))
]
