-- ===== src/Prelude/Json/Tree.antt =====
-- Values as trees, with numbers that are natural: they have the laws of `Json`.
use openwave.Prelude.{ℕ, String, Bool, some, List, [], ◌∷◌, ◌≡◌, refl, ap}
use openwave.Prelude.Dict.{Dict}
use openwave.Prelude.Decimal.{decimal}
use openwave.Prelude.Json.{View, null, bool, number, string, array, object, Json}

mutual
  pub data Tree : Type 0 where
    nothing : Tree
    truth : Bool → Tree
    num : ℕ → Tree
    text : String → Tree
    arr : Items → Tree
    obj : Fields → Tree

  pub data Items : Type 0 where
    nil : Items
    cons : Tree → Items → Items

  pub data Fields : Type 0 where
    end : Fields
    field : String → Tree → Fields → Fields

abbrev pub items : Items → List Tree
items nil = []
items (cons t ts) = t ∷ items ts

abbrev pub of_items : List Tree → Items
of_items [] = nil
of_items (t ∷ ts) = cons t (of_items ts)

abbrev pub fields : Fields → Dict String Tree
fields end = []
fields (field k t ts) = (k, t) ∷ fields ts

abbrev pub of_fields : Dict String Tree → Fields
of_fields [] = end
of_fields ((k, t) ∷ ts) = field k t (of_fields ts)

items-of_items : (l : List Tree) → items (of_items l) ≡ l
items-of_items [] = refl
items-of_items (t ∷ ts) = ap (λ l. t ∷ l) (items-of_items ts)

fields-of_fields : (l : Dict String Tree) → fields (of_fields l) ≡ l
fields-of_fields [] = refl
fields-of_fields ((k, t) ∷ ts) = ap (λ l. (k, t) ∷ l) (fields-of_fields ts)

abbrev pub look : Tree → View ℕ Tree
look nothing = null
look (truth b) = bool b
look (num n) = number n
look (text s) = string s
look (arr ts) = array (items ts)
look (obj ts) = object (fields ts)

abbrev pub plant : View ℕ Tree → Tree
plant null = nothing
plant (bool b) = truth b
plant (number n) = num n
plant (string s) = text s
plant (array l) = arr (of_items l)
plant (object m) = obj (of_fields m)

pub look-plant : (w : View ℕ Tree) → look (plant w) ≡ w
look-plant null = refl
look-plant (bool b) = refl
look-plant (number n) = refl
look-plant (string s) = refl
look-plant (array l) = ap array (items-of_items l)
look-plant (object m) = ap object (fields-of_fields m)

abbrev pub tree_json : Json
tree_json = record {
  V = Tree;
  N = ℕ;
  view = look;
  make = plant;
  view-make = look-plant;
  number_as_u64 = λ n. some n;
  number_to_string = decimal;
}
