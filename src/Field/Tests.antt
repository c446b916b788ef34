-- ===== src/Field/Tests.antt =====
-- `addMod` of zkp/js/lib/util.js on small numbers, of either sign.
use zeto.Base.{◌≡◌, ◌+◌, ◌%◌, refl}
use zeto.Base.Int.{pos, negsuc}
use zeto.Field.{F, add_mod}
use zeto.Field.Laws.{residue, add_mod_lem}

three_minus_five :
    add_mod (pos 3) (negsuc 4)
    ≡ pos 21888242871839275222246405745257275088548364400416034343698204186575808495615
unfolding add_mod
three_minus_five = refl

add_mod_lem_example : add_mod (pos 3) (negsuc 4) ≡ pos ((residue (pos 3) + residue (negsuc 4)) % F)
add_mod_lem_example = add_mod_lem (pos 3) (negsuc 4)
