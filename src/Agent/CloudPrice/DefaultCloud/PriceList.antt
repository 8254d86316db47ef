-- ===== src/Agent/CloudPrice/DefaultCloud/PriceList.antt =====
-- What `parseGPUDevicePriceList` reads, and what the price of a node is made of.
use kubefin.Base.{
  String, false, ◌==◌, string_key, Option, none, some, inl, inr, List, [], ◌∷◌, ◌≡◌, Dict, get, put,
  get-put, or_else, Option-cases, if◌then◌else◌, arith,
}
use text.Mathlib.TextEquality.{eq_iff}
use kubefin.External.Quantity.{Quantity, Readings}
use kubefin.External.Float64.{Float64, nought, gb_in_bytes}
use kubefin.External.Objects.{Node}
use kubefin.Agent.Types.{InstancePriceInfo}
use kubefin.Agent.CloudPrice.Options.{ok, option_or, Result-cases}
use kubefin.Agent.CloudPrice.DefaultCloud.{
  DefaultCloudProvider, parse_item, parse_items, parse_gpu_device_price_list, card_price,
  get_node_hourly_price,
}

module _ (F : Type 0) ⦃float : Float64 F⦄ (split : String → String → List String) where
  -- An item has just two parts, of which the second is a number.
  abbrev pub IsPrice : String → Type 0
  IsPrice item =
      (device : String) × (price : String) × (v : F) × (split item ":" ≡ device ∷ price ∷ [])
      × (float.parse price ≡ some v)

  abbrev pub ArePrices : List String → Type 0
  ArePrices [] = Unit {0}
  ArePrices (item ∷ items) = IsPrice item × ArePrices items

  -- The price that the parts of an item give a device.
  abbrev pub price_for : String → List String → Option F
  price_for d (device ∷ price ∷ []) = if device == d then float.parse price else none
  price_for d _ = none

  -- The price of a device by the last of its items.
  unfoldable pub last_price : String → List String → Option F
  last_price d [] = none
  last_price d (item ∷ items) = elim (last_price d items) [
    | some price ↦ some price
    | none ↦ price_for d (split item ":")
  ]

  parse_item_lem :
      (parts : List String) (entry : String × F)
      → parse_item {F = F} split parts ≡ ok entry
      → (price : String) × (parts ≡ entry.0 ∷ price ∷ []) × (float.parse price ≡ some entry.1)
  unfolding parse_item
  parse_item_lem [] entry h = absurd (ground arith)
  parse_item_lem (device ∷ []) entry h = absurd (ground arith)
  parse_item_lem (device ∷ price ∷ []) entry h = elim (Option-cases (float.parse price)) [
    | inl bad ↦ absurd (ground arith)
    | inr (v, good) ↦ (price, ground arith, ground arith)
  ]
  parse_item_lem (device ∷ price ∷ other ∷ parts) entry h = absurd (ground arith)

  price_for-parse_item :
      (d : String) (parts : List String) (entry : String × F)
      → parse_item {F = F} split parts ≡ ok entry
      → price_for d parts ≡ (if entry.0 == d then some entry.1 else none)
  price_for-parse_item d parts entry h =
      let (price, same, number) = parse_item_lem parts entry h in rw same (ground (arith, number))

  get-parse_items :
      (d : String) (items : List String) (ret prices : Dict String F)
      → parse_items split items ret ≡ ok prices
      → ArePrices items
        × (get d prices
            ≡ (elim (last_price d items) [ some price ↦ some price | none ↦ get d ret ]))
  unfolding parse_items last_price
  get-parse_items d [] ret prices h = (tt, ground arith)
  get-parse_items d (item ∷ items) ret prices h =
      elim (Result-cases (parse_item {F = F} split (split item ":"))) [
        | inl (e, bad) ↦ absurd (ground arith)
        | inr (entry, good) ↦
            let (price, parts, number) = parse_item_lem (split item ":") entry good in
            let (all, last) =
              get-parse_items d items (put entry.0 entry.1 ret) prices (ground arith) in
            (
              ((entry.0, price, entry.1, parts, number), all),
              ground (
                arith,
                eq_iff entry.0 d,
                get-put entry.0 d entry.1 ret,
                price_for-parse_item d (split item ":") entry good,
              ),
            )
      ]

  -- A list that is accepted has only items of just two parts at the colon, of which the second is a
  -- number, and each device has the price of the last item that names it.
  pub get-parse_gpu_device_price_list :
      (price_list d : String) (prices : Dict String F)
      → parse_gpu_device_price_list split price_list ≡ ok prices
      → ArePrices (split price_list ";") × (get d prices ≡ last_price d (split price_list ";"))
  unfolding parse_gpu_device_price_list get
  get-parse_gpu_device_price_list price_list d prices h =
      let (all, last) = get-parse_items d (split price_list ";") [] prices h in (all, ground arith)

  -- Where the node's device is listed, the price of a card is that of the device, and the total price
  -- of the node still counts its cards at the general price.
  pub get_node_hourly_price_device :
      {Q : Type 0} ⦃quantity : Quantity Q⦄ ⦃readings : Readings Q F⦄ (node : Node Q)
      (c : DefaultCloudProvider F) (prices : Dict String F) (device : String) (price : F)
      (info : InstancePriceInfo F)
      → (c.gpu_device_label_key == "") ≡ false
      → (c.gpu_device_price_list == "") ≡ false
      → parse_gpu_device_price_list split c.gpu_device_price_list ≡ ok prices
      → get c.gpu_device_label_key (or_else [] node.labels) ≡ some device
      → get device prices ≡ some price
      → get_node_hourly_price split node c ≡ ok info
      → (info.gpu_card_hourly_price ≡ price)
        × (info.node_total_hourly_price
            ≡ float.add
                (float.add
                  (float.mul c.cpu_core_hourly_price
                    (readings.approximate (or_else quantity.zero (get "cpu" node.capacity))))
                  (float.mul c.ramgb_hourly_price (
                    float.div
                      (readings.approximate (or_else quantity.zero (get "memory" node.capacity)))
                      gb_in_bytes)))
                (float.mul c.gpu_card_hourly_price info.gpu_cards))
  unfolding get_node_hourly_price card_price
  get_node_hourly_price_device node c prices device price info keyed listed parsed labelled found
        ran =
      elim (Result-cases (option_or {F = F} nought c.node_cpu_core_deviation)) [
        | inl (e, bad) ↦ absurd (ground arith)
        | inr (cpu, good) ↦ elim (Result-cases (option_or {F = F} nought c.node_ramgb_deviation)) [
          | inl (e, bad) ↦ absurd (ground arith)
          | inr (ram, fine) ↦ ground arith
        ]
      ]
