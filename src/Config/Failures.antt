-- ===== src/Config/Failures.antt =====
-- Files with a value that cannot be read, and files without a section.
use certos.Base.{List, [], ◌∷◌, Option, none, some, Text, txt, ◌≡◌, ◌∙◌, ◌⊎◌, refl, inl, inr}
use certos.Config.{
  Yaml, Field, field, yaml_get, read_fields, load_section, new_MasterConfig, new_AgentConfig,
  new_GatewayConfig,
}
use certos.Config.Files.{master_fields, load_gateway_config, load_master_config, load_agent_config}

pub read_next :
    {C : Type 0} (f : Field C) (fs : List (Field C)) (c c' : C)
    → f c ≡ some c'
    → read_fields (f ∷ fs) c ≡ read_fields fs c'
unfolding read_fields
read_next f fs c c' e = rw (e, read_fields) refl

pub read_done : {C : Type 0} (c : C) → read_fields [] c ≡ c
unfolding read_fields
read_done c = refl

read_stops :
    {C : Type 0} (f : Field C) (fs : List (Field C)) (c : C)
    → f c ≡ none
    → read_fields (f ∷ fs) c ≡ c
unfolding read_fields
read_stops f fs c e = rw (e, read_fields) refl

module _ (y : Yaml) where
  -- The key is there, with a value that `read` makes the field.
  abbrev pub Gives : {T : Type 0} → (y.Node → Option T) → y.Node → Text → T → Type 0
  Gives read node key v = (w : y.Node) × (y.at node key ≡ some (some w)) × (read w ≡ some v)

  -- The program's section of the file.
  abbrev pub HasSection : Text → Text → y.Node → Type 0
  HasSection path name node =
      (root : y.Node) × (y.load_file path ≡ some root) × (y.at root name ≡ some (some node))

  pub load_section_found :
      {C : Type 0} (path name : Text) (node : y.Node) (cfg : C) (fields : y.Node → List (Field C))
      → HasSection path name node
      → load_section y path name cfg fields ≡ read_fields (fields node) cfg
  unfolding load_section
  load_section_found path name node cfg fields (root, e, a) = rw (e, a, load_section) refl

  -- A field that is given is read, and the reading goes on.
  given :
      {C : Type 0} {T : Type 0} (read : y.Node → Option T) (node : y.Node) (key : Text) (v : T)
      (get : C → T) (set : T → C → C) (fs : List (Field C)) (c r : C)
      → Gives read node key v
      → read_fields fs (set v c) ≡ r
      → read_fields (field y read node key get set ∷ fs) c ≡ r
  unfolding yaml_get
  given read node key v get set fs c r (w, at, e) rest =
      read_next (field y read node key get set) fs c (set v c) (rw (at, e, field, yaml_get) refl)
      ∙ rest

  -- A field whose value cannot be read ends the reading.
  refused :
      {C : Type 0} {T : Type 0} (read : y.Node → Option T) (node : y.Node) (key : Text) (w : y.Node)
      (get : C → T) (set : T → C → C) (fs : List (Field C)) (c : C)
      → y.at node key ≡ some (some w)
      → read w ≡ none
      → read_fields (field y read node key get set ∷ fs) c ≡ c
  unfolding yaml_get
  refused read node key w get set fs c at e =
      read_stops (field y read node key get set) fs c (rw (at, e, field, yaml_get) refl)

  -- The file's port is no `int`: the address, which is read before it, is the file's, but everything
  -- else is the default, the signing secret and the switch for TLS included.
  pub unreadable_port_drops_rest :
      (path address : Text) (node port : y.Node)
      → HasSection path (txt "master") node
      → Gives y.as_text node (txt "bind_address") address
      → y.at node (txt "grpc_port") ≡ some (some port)
      → y.as_int port ≡ none
      → load_master_config y path ≡ record (new_MasterConfig y) { bind_address = address }
  unfolding load_master_config master_fields
  unreadable_port_drops_rest path address node port at b c d =
      load_section_found path (txt "master") node (new_MasterConfig y) (master_fields y) at
      ∙ given y.as_text node (txt "bind_address") address _ _ _ _ _ b
          (refused y.as_int node (txt "grpc_port") port _ _ _ _ c d)

  defaults :
      {C : Type 0} (path name : Text) (cfg : C) (fields : y.Node → List (Field C))
      → (y.load_file path ≡ none)
        ⊎ ((root : y.Node) × (y.load_file path ≡ some root)
            × ((key : Text) → (y.at root key ≡ some none) ⊎ (y.at root key ≡ none)))
      → load_section y path name cfg fields ≡ cfg
  unfolding load_section
  defaults path name cfg fields (inl e) = rw (e, load_section) refl
  defaults path name cfg fields (inr (root, e, s)) = elim (s name) [
    | inl a ↦ rw (e, a, load_section) refl
    | inr a ↦ rw (e, a, load_section) refl
  ]

  -- Without the file, or without the section in it, all three configurations are the defaults; so they
  -- are where the file is no map, of which no section can be asked.
  pub defaults_without_section :
      (path : Text)
      → (y.load_file path ≡ none)
        ⊎ ((root : y.Node) × (y.load_file path ≡ some root)
            × ((name : Text) → (y.at root name ≡ some none) ⊎ (y.at root name ≡ none)))
      → (load_master_config y path ≡ new_MasterConfig y)
        × (load_agent_config y path ≡ new_AgentConfig)
        × (load_gateway_config y path ≡ new_GatewayConfig)
  unfolding load_master_config load_agent_config load_gateway_config
  defaults_without_section path h =
      (defaults path _ _ (master_fields y) h, defaults path _ _ _ h, defaults path _ _ _ h)
