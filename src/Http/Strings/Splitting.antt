-- ===== src/Http/Strings/Splitting.antt =====
-- Where a text does not contain the separator, there is nothing to split.
use coap_gateway.Prelude.{zero, ◌≡◌, refl, false, [], ◌∷◌, ◌++◌, arith}
use mathlib.Core.List.{append-nil, append_assoc}
use coap_gateway.Prelude.Text.{Text}
use coap_gateway.Http.Strings.{has_prefix, contains, split_from}

pub split_from-whole :
    (sep s read : Text) → contains s sep ≡ false → split_from sep zero read s ≡ (read ++ s) ∷ []
unfolding split_from contains
split_from-whole sep [] read h = rw (append-nil read) refl
split_from-whole sep (a ∷ s) read h =
    let p : has_prefix sep (a ∷ s) ≡ false = ground arith in
    let q : contains s sep ≡ false = ground arith in
    rw (split_from, p, split_from-whole sep s (read ++ a ∷ []) q, append_assoc read (a ∷ []) s) refl
