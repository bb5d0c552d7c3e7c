-- ===== src/Charset/Codepages.antt =====
-- djmount/charset_internal.c: the list of the supported charsets, with their tables.
mod Windows
mod DosA
mod DosB
mod DosC
mod IsoA
mod IsoB
mod Koi
use Windows.{c2u_cp1250, c2u_cp1251, c2u_cp1252, c2u_cp1255}
use DosA.{c2u_cp437, c2u_cp737, c2u_cp775, c2u_cp850, c2u_cp852, c2u_cp855}
use DosB.{c2u_cp857, c2u_cp860, c2u_cp861, c2u_cp862, c2u_cp863}
use DosC.{c2u_cp864, c2u_cp865, c2u_cp866, c2u_cp869, c2u_cp874}
use IsoA.{c2u_iso8859_1, c2u_iso8859_13, c2u_iso8859_14, c2u_iso8859_15, c2u_iso8859_2}
use IsoB.{c2u_iso8859_3, c2u_iso8859_4, c2u_iso8859_5, c2u_iso8859_6, c2u_iso8859_7, c2u_iso8859_9}
use Koi.{c2u_koi8_r, c2u_koi8_u}
use djmount.Base.{ℕ, List, [], ◌∷◌, Option, none, some}
use djmount.Base.Lists.{Bytes}
use djmount.Base.Text.{codes}

pub record Nls : Type 0 where
  pub name : Bytes
  pub c2u : Option (List ℕ)

-- The terminating entry with a NULL name is the end of the list.
unfoldable pub nls_list : List Nls
nls_list =
    record { name = codes "cp437"; c2u = some c2u_cp437 }
    ∷ record { name = codes "cp737"; c2u = some c2u_cp737 }
    ∷ record { name = codes "cp775"; c2u = some c2u_cp775 }
    ∷ record { name = codes "cp850"; c2u = some c2u_cp850 }
    ∷ record { name = codes "cp852"; c2u = some c2u_cp852 }
    ∷ record { name = codes "cp855"; c2u = some c2u_cp855 }
    ∷ record { name = codes "cp857"; c2u = some c2u_cp857 }
    ∷ record { name = codes "cp860"; c2u = some c2u_cp860 }
    ∷ record { name = codes "cp861"; c2u = some c2u_cp861 }
    ∷ record { name = codes "cp862"; c2u = some c2u_cp862 }
    ∷ record { name = codes "cp863"; c2u = some c2u_cp863 }
    ∷ record { name = codes "cp864"; c2u = some c2u_cp864 }
    ∷ record { name = codes "cp865"; c2u = some c2u_cp865 }
    ∷ record { name = codes "cp866"; c2u = some c2u_cp866 }
    ∷ record { name = codes "cp869"; c2u = some c2u_cp869 }
    ∷ record { name = codes "cp874"; c2u = some c2u_cp874 }
    ∷ record { name = codes "cp1250"; c2u = some c2u_cp1250 }
    ∷ record { name = codes "cp1251"; c2u = some c2u_cp1251 }
    ∷ record { name = codes "cp1252"; c2u = some c2u_cp1252 }
    ∷ record { name = codes "cp1255"; c2u = some c2u_cp1255 }
    ∷ record { name = codes "iso88591"; c2u = some c2u_iso8859_1 }
    ∷ record { name = codes "iso885913"; c2u = some c2u_iso8859_13 }
    ∷ record { name = codes "iso885914"; c2u = some c2u_iso8859_14 }
    ∷ record { name = codes "iso885915"; c2u = some c2u_iso8859_15 }
    ∷ record { name = codes "iso88592"; c2u = some c2u_iso8859_2 }
    ∷ record { name = codes "iso88593"; c2u = some c2u_iso8859_3 }
    ∷ record { name = codes "iso88594"; c2u = some c2u_iso8859_4 }
    ∷ record { name = codes "iso88595"; c2u = some c2u_iso8859_5 }
    ∷ record { name = codes "iso88596"; c2u = some c2u_iso8859_6 }
    ∷ record { name = codes "iso88597"; c2u = some c2u_iso8859_7 }
    ∷ record { name = codes "iso88599"; c2u = some c2u_iso8859_9 }
    ∷ record { name = codes "koi8r"; c2u = some c2u_koi8_r }
    ∷ record { name = codes "koi8u"; c2u = some c2u_koi8_u }
    ∷ record { name = codes "ascii"; c2u = none }
    ∷ []
