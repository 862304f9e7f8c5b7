-- ===== src/Rules/Catalogue.antt =====
-- packages/rules/src/data-points.json: the catalogue of regulatory data points, with the columns that
-- the code reads: identifier, name, requirement for each battery category, access tier.
use codex_nieuw.Prelude.{ℕ, String, List, [], ◌∷◌, ◌++◌}
use codex_nieuw.Rules.Types.{
  Requirement, mandatory, optional_if_available, not_displayed_duplicate, deferred_format_pending,
  deferred_until_august_2027, deferred_article_8, conditional_if_applicable, not_displayed,
  conditional_if_commercial_warranty, conditional_industrial_cycle_applications,
  conditional_some_industrial_batteries, mandatory_dynamic, conditional_dynamic, AccessTier, public,
  legitimate_interest_model, authority_only, legitimate_interest_item, FieldDefinition,
}

abbrev field : ℕ → String → Requirement → Requirement → Requirement → AccessTier → FieldDefinition
field id name ev lmt industrial tier = record {
  id = id;
  name = name;
  applicability = record { ev = ev; lmt = lmt; industrial = industrial };
  access_tier = tier;
}

public_fields : List FieldDefinition
public_fields =
    field 1 "Unique identifier" mandatory mandatory mandatory public
    ∷ field 2 "Identity of who is registering and/or is responsible for the battery passport"
        mandatory mandatory mandatory public
    ∷ field 3 "Manufacturer name, registered trade name or registered trademark" mandatory mandatory
        mandatory public
    ∷ field 4 "Manufacturer postal address, indicating a single contact point" mandatory mandatory
        mandatory public
    ∷ field 5 "If available, manufacturer web and email address" optional_if_available
        optional_if_available optional_if_available public
    ∷ field 6 "Battery category" mandatory mandatory mandatory public
    ∷ field 7
        "Model identification and batch or serial number, or product number or another element allowing identification"
        mandatory mandatory mandatory public
    ∷ field 8 "Place of manufacture (geographical location of a battery manufacturing plant)"
        mandatory mandatory mandatory public
    ∷ field 9 "Date of manufacturing (month and year)" mandatory mandatory mandatory public
    ∷ field 10 "Weight" mandatory mandatory mandatory public
    ∷ field 11 "Capacity" mandatory mandatory mandatory public
    ∷ field 12 "Chemistry" mandatory mandatory mandatory public
    ∷ field 13 "Hazardous substances present in the battery, other than mercury, cadmium or lead"
        mandatory mandatory mandatory public
    ∷ field 14 "Usable extinguishing agent" mandatory mandatory mandatory public
    ∷ field 15 "Critical raw materials present in the battery above 0.1% weight by weight" mandatory
        mandatory mandatory public
    ∷ field 16
        "Material composition of the battery, including chemistry, hazardous substances and critical raw materials"
        not_displayed_duplicate not_displayed_duplicate not_displayed_duplicate public
    ∷ field 17 "Carbon footprint declaration" deferred_format_pending deferred_format_pending
        deferred_format_pending public
    ∷ field 18 "Carbon footprint label" deferred_format_pending deferred_format_pending
        deferred_format_pending public
    ∷ field 19
        "Responsible sourcing information as indicated in the battery due diligence policy report referred to in Article 52(3)"
        deferred_until_august_2027 deferred_until_august_2027 deferred_until_august_2027 public
    ∷ field 20
        "Percentage share of cobalt in active materials recovered from battery manufacturing waste or post-consumer waste"
        deferred_article_8 deferred_article_8 deferred_article_8 public
    ∷ field 21
        "Percentage share of lithium in active materials recovered from battery manufacturing waste or post-consumer waste"
        deferred_article_8 deferred_article_8 deferred_article_8 public
    ∷ field 22
        "Percentage share of nickel in active materials recovered from battery manufacturing waste or post-consumer waste"
        deferred_article_8 deferred_article_8 deferred_article_8 public
    ∷ field 23 "Percentage share of lead present in the battery and recovered from waste"
        deferred_article_8 deferred_article_8 deferred_article_8 public
    ∷ field 24 "Share of renewable content" mandatory mandatory mandatory public
    ∷ field 25 "Rated capacity (Ah)" not_displayed_duplicate not_displayed_duplicate
        not_displayed_duplicate public
    ∷ field 26 "Minimal voltage, with temperature range when relevant" mandatory mandatory mandatory
        public
    ∷ field 27 "Nominal voltage, with temperature range when relevant" mandatory mandatory mandatory
        public
    ∷ field 28 "Maximum voltage, with temperature range when relevant" mandatory mandatory mandatory
        public
    ∷ field 29 "Original power capability (W)" mandatory mandatory mandatory public
    ∷ field 30 "Power limits, with temperature range when relevant" mandatory mandatory mandatory
        public
    ∷ field 31 "Expected battery lifetime expressed in cycles" mandatory mandatory
        conditional_industrial_cycle_applications public
    ∷ field 32 "Reference test used for expected battery lifetime expressed in cycles" mandatory
        mandatory conditional_industrial_cycle_applications public
    ∷ field 33 "Capacity threshold for exhaustion" mandatory not_displayed not_displayed public
    ∷ field 34 "Temperature range the battery can withstand when not in use (reference test)"
        mandatory mandatory mandatory public
    ∷ field 35 "Period for which the commercial warranty for calendar life applies"
        conditional_if_commercial_warranty conditional_if_commercial_warranty
        conditional_if_commercial_warranty public
    ∷ field 36 "Initial round trip energy efficiency" mandatory mandatory
        conditional_some_industrial_batteries public
    ∷ field 37 "Round trip energy efficiency at 50% of cycle-life" mandatory mandatory
        conditional_some_industrial_batteries public
    ∷ field 38 "Internal battery cell and pack resistance" mandatory mandatory mandatory public
    ∷ field 39 "C-rate of relevant cycle-life test" mandatory mandatory
        conditional_some_industrial_batteries public
    ∷ field 40 "Marking requirements laid down in Article 13(4)" mandatory mandatory mandatory
        public
    ∷ field 41 "Marking requirements laid down in Article 13(5)" conditional_if_applicable
        conditional_if_applicable conditional_if_applicable public
    ∷ field 42 "EU declaration of conformity referred to in Article 18" mandatory mandatory
        mandatory public
    ∷ field 43
        "Information regarding prevention and management of waste batteries laid down in Article 74(1)(a)-(f)"
        mandatory mandatory mandatory public
    ∷ field 44
        "Clear, understandable and readable instructions for use in a printable/downloadable/savable format"
        not_displayed not_displayed not_displayed public
    ∷ []

other_fields : List FieldDefinition
other_fields =
    field 45 "Detailed composition, including materials used in the cathode, anode and electrolyte"
      mandatory mandatory mandatory legitimate_interest_model
    ∷ field 46 "Part numbers for components" mandatory mandatory mandatory legitimate_interest_model
    ∷ field 47 "Contact details of sources for replacement spares" mandatory mandatory mandatory
        legitimate_interest_model
    ∷ field 48
        "Dismantling information, including exploded diagrams, disassembly sequences, fastening techniques, tools, warnings, cell count and layout"
        mandatory mandatory mandatory legitimate_interest_model
    ∷ field 49 "Safety measures" mandatory mandatory mandatory legitimate_interest_model
    ∷ field 50
        "Results of test reports proving compliance with the Batteries Regulation or delegated/implementing acts"
        mandatory mandatory mandatory authority_only
    ∷ field 51 "Rated capacity (Ah), dynamic value" mandatory_dynamic mandatory_dynamic
        conditional_dynamic legitimate_interest_item
    ∷ field 52 "Capacity fade (%)" mandatory mandatory conditional_if_applicable
        legitimate_interest_item
    ∷ field 53 "Power (W)" mandatory mandatory conditional_if_applicable legitimate_interest_item
    ∷ field 54 "Power fade (%)" mandatory mandatory conditional_if_applicable
        legitimate_interest_item
    ∷ field 55 "Internal resistance (Ω)" mandatory mandatory conditional_if_applicable
        legitimate_interest_item
    ∷ field 56 "Internal resistance increase (%)" mandatory mandatory conditional_if_applicable
        legitimate_interest_item
    ∷ field 57 "Where applicable, energy round trip efficiency (%)" conditional_if_applicable
        conditional_if_applicable conditional_if_applicable legitimate_interest_item
    ∷ field 58 "Where applicable, energy round trip efficiency fade (%)" conditional_if_applicable
        conditional_if_applicable conditional_if_applicable legitimate_interest_item
    ∷ field 59
        "Expected lifetime under reference conditions in cycles, except non-cycle applications"
        mandatory mandatory conditional_if_applicable legitimate_interest_item
    ∷ field 60 "Expected lifetime under reference conditions in calendar years" mandatory mandatory
        conditional_if_applicable legitimate_interest_item
    ∷ field 61 "State of health: state of certified energy (SOCE)" mandatory not_displayed
        not_displayed legitimate_interest_item
    ∷ field 62 "State of health: remaining capacity" not_displayed mandatory
        conditional_if_applicable legitimate_interest_item
    ∷ field 63 "State of health: where possible, remaining power capability" not_displayed mandatory
        conditional_if_applicable legitimate_interest_item
    ∷ field 64 "State of health: where possible, remaining round trip efficiency" not_displayed
        mandatory conditional_if_applicable legitimate_interest_item
    ∷ field 65 "State of health: where possible, evolution of self-discharging rates" not_displayed
        mandatory conditional_if_applicable legitimate_interest_item
    ∷ field 66 "State of health: where possible, ohmic resistance" not_displayed mandatory
        conditional_if_applicable legitimate_interest_item
    ∷ field 67 "Battery status: original, repurposed, re-used, remanufactured or waste" mandatory
        mandatory mandatory legitimate_interest_item
    ∷ field 68 "Number of charging and discharging cycles" conditional_if_applicable
        conditional_if_applicable conditional_if_applicable legitimate_interest_item
    ∷ field 69 "Negative events, such as accidents" conditional_if_applicable
        conditional_if_applicable conditional_if_applicable legitimate_interest_item
    ∷ field 70 "Periodically recorded operating environmental conditions, including temperature"
        conditional_if_applicable conditional_if_applicable conditional_if_applicable
        legitimate_interest_item
    ∷ field 71 "Periodically recorded state of charge" conditional_if_applicable
        conditional_if_applicable conditional_if_applicable legitimate_interest_item
    ∷ []

unfoldable pub fields : List FieldDefinition
unfolding public_fields other_fields
fields = public_fields ++ other_fields
