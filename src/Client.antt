-- ===== src/Client.antt =====
-- client.cpp: the program that hands the calls of FUSE to the one FS object.
pub mod Serve
pub mod Start
use bitfs.Base.{
  ℕ, zero, suc, ◌+◌, ◌≤◌, ◌≡◌, refl, ap, ◌≢◌, ◌⊎◌, inl, inr, List, [], ◌∷◌, ◌++◌, Option, none,
  some, arith, ◌↔◌,
}
use bitfs.Base.Int.{ℤ, pos}
use bitfs.Base.Text.{Text}

-- The functions that client.cpp registers.
pub data Handler : Type 0 where
  getattr_wrapper readdir_wrapper open_wrapper read_wrapper init_wrapper : Handler

-- static struct fuse_operations bitfs_operations, zero at first: the five operations that
-- init_fuse sets, by the program's handlers H.
pub record Operations (H : Type 0) : Type 0 where
  pub getattr : Option H
  pub readdir : Option H
  pub open_file : Option H
  pub read : Option H
  pub init : Option H

-- char **init_fuse(char **argv): the arguments for fuse_main, from argv[0] and argv[2], and the
-- operations.
unfoldable pub init_fuse : Text → Text → List Text × Operations Handler
init_fuse argv0 argv2 = (
  argv0 ∷ argv2 ∷ (b'-' ∷ b'd' ∷ []) ∷ (b'-' ∷ b'f' ∷ []) ∷ [],
  record {
    getattr = some getattr_wrapper;
    readdir = some readdir_wrapper;
    open_file = some open_wrapper;
    read = some read_wrapper;
    init = some init_wrapper;
  },
)

-- The call of fuse_main, with the private data that init_bitfs reads.
pub record FuseMain (H : Type 0) : Type 0 where
  pub args : List Text
  pub operations : Operations H
  pub private_data : Text

-- int main(int argc, char *argv[]): with another number of arguments the program exits at once.
unfoldable pub main : List Text → Option (FuseMain Handler)
unfolding init_fuse
main (argv0 ∷ argv1 ∷ argv2 ∷ argv3 ∷ []) =
    let (args, operations) = init_fuse argv0 argv2 in
    some (record { args = args; operations = operations; private_data = argv1 })
main argv = none

-- FS::_instance, as the number of an object, and the number of objects made so far.
pub record Objects : Type 0 where
  pub _instance : Option ℕ
  pub made : ℕ

-- static FS *FS::Instance()
unfoldable pub instance_of : Objects → ℕ × Objects
instance_of g = elim g._instance [
  | none ↦ (g.made, record { _instance = some g.made; made = g.made + 1 })
  | some fs ↦ (fs, g)
]

-- The objects that a number of calls of the wrappers work on: each asks for the instance first.
unfoldable pub instances : ℕ → Objects → List ℕ × Objects
instances zero g = ([], g)
instances (suc n) g =
    let (fs, g1) = instance_of g in let (rest, g2) = instances n g1 in (fs ∷ rest, g2)

abbrev pub AllEq : ℕ → List ℕ → Type 0
AllEq a [] = Unit
AllEq a (b ∷ bs) = (b ≡ a) × AllEq a bs

instances_known :
    (n fs made : ℕ)
    → let g : Objects = record { _instance = some fs; made = made } in
      AllEq fs (instances n g).0 × ((instances n g).1 ≡ g)
unfolding instances instance_of
instances_known zero fs made = (tt, refl)
instances_known (suc n) fs made =
    let (all, same_objects) = instances_known n fs made in ((refl, all), same_objects)

-- From the start of the program all calls of the wrappers work on one object, and as soon as
-- there is a call exactly one object has been made.
pub instances_one :
    (n : ℕ)
    → let g : Objects = record { _instance = none; made = 0 } in
      AllEq 0 (instances (suc n) g).0 × ((instances (suc n) g).1.made ≡ 1)
unfolding instances instance_of
instances_one n =
    let (all, same_objects) = instances_known n 0 1 in
    ((refl, all), ap (λ (g : Objects). g.made) same_objects)
