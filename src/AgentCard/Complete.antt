-- ===== src/AgentCard/Complete.antt =====
-- What generateRegistrationJSON makes of the options of an A2A agent.
use self_agent_id.Base.{
  ◌≡◌, ◌⊎◌, true, false, Option, none, some, List, [], ◌∷◌, is_empty, any, keep,
}
use self_agent_id.AgentCard.{AgentSkill, Erc8004Service, Erc8004AgentDocument}
use self_agent_id.AgentCard.Generate.{
  A2aOptions, GenerateRegistrationJsonOptions, is_a2a, a2a_service,
}
use self_agent_id.AgentCard.Slugs.{IsSlug}

-- The id of a skill: one that is given stays, any other is a slug; the name stays.
pub record IsIdentified (skill other : AgentSkill) : Type 0 where
  pub same_name : other.name ≡ skill.name
  pub identified :
      ((is_empty skill.id ≡ false) × (other.id ≡ skill.id))
      ⊎ ((is_empty skill.id ≡ true) × IsSlug other.id)

abbrev pub AllIdentified : List AgentSkill → List AgentSkill → Type 0
AllIdentified [] [] = Unit
AllIdentified (skill ∷ skills) (other ∷ others) =
    IsIdentified skill other × AllIdentified skills others
AllIdentified _ _ = ⊥

abbrev pub SkillsIdentified : Option (List AgentSkill) → Option (List AgentSkill) → Type 0
SkillsIdentified none none = Unit
SkillsIdentified (some skills) (some others) = AllIdentified skills others
SkillsIdentified _ _ = ⊥

-- The document of an A2A agent.
pub record IsA2aDocument (options : GenerateRegistrationJsonOptions) (a2a : A2aOptions)
    (document : Erc8004AgentDocument) : Type 0 where
  pub address : document.url ≡ some a2a.url
  pub listed : any is_a2a document.services ≡ true
  -- The service that is added is the only A2A service, at the agent's address.
  pub services :
      ((any is_a2a options.services ≡ false)
        × (keep is_a2a document.services ≡ a2a_service a2a ∷ []))
      ⊎ ((any is_a2a options.services ≡ true) × (document.services ≡ options.services))
  pub skills : SkillsIdentified a2a.skills document.skills

abbrev pub Listed : List Erc8004Service → A2aOptions → List Erc8004Service → Type 0
Listed given a2a services =
    (any is_a2a services ≡ true)
    × (((any is_a2a given ≡ false) × (keep is_a2a services ≡ a2a_service a2a ∷ []))
        ⊎ ((any is_a2a given ≡ true) × (services ≡ given)))
