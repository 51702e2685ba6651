-- ===== src/Dns/Tables.antt =====
-- The built-in tables of the daemon: `cnDomainSuffixes` of openwrt/opensocks/src/mihomo.go and
-- `chinaServiceGroups` of openwrt/opensocks/src/netfilter.go.
use open_socks.Prelude.{List, [], ◌∷◌, Bytes, codes}

unfoldable pub cn_domain_suffixes : List Bytes
cn_domain_suffixes =
    codes "bilibili.com"
    ∷ codes "b23.tv"
    ∷ codes "bilivideo.com"
    ∷ codes "bilivideo.cn"
    ∷ codes "bilibili.cn"
    ∷ codes "hdslb.com"
    ∷ codes "iqiyi.com"
    ∷ codes "iqiyipic.com"
    ∷ codes "qiyi.com"
    ∷ codes "71.am"
    ∷ codes "youku.com"
    ∷ codes "youkucdn.com"
    ∷ codes "youku.net"
    ∷ codes "tudou.com"
    ∷ codes "qq.com"
    ∷ codes "gtimg.com"
    ∷ codes "qpic.cn"
    ∷ codes "qqvideo.com"
    ∷ codes "tencent.com"
    ∷ codes "tencentmusic.com"
    ∷ codes "y.qq.com"
    ∷ codes "music.qq.com"
    ∷ codes "qqmusic.com"
    ∷ codes "mgtv.com"
    ∷ codes "hunantv.com"
    ∷ codes "imgsfs.com"
    ∷ codes "sohu.com"
    ∷ codes "sohucs.com"
    ∷ codes "le.com"
    ∷ codes "letv.com"
    ∷ codes "lemall.com"
    ∷ codes "163.com"
    ∷ codes "netease.com"
    ∷ codes "music.163.com"
    ∷ codes "126.net"
    ∷ codes "kugou.com"
    ∷ codes "kuwo.cn"
    ∷ codes "kuaishou.com"
    ∷ codes "douyin.com"
    ∷ codes "douyincdn.com"
    ∷ codes "kuaishoucdn.com"
    ∷ codes "zhibo.tv"
    ∷ codes "cntv.cn"
    ∷ codes "cctv.com"
    ∷ codes "wasu.cn"
    ∷ codes "wasuband.cn"
    ∷ codes "pptv.com"
    ∷ codes "china.com"
    ∷ codes "fun.tv"
    ∷ codes "weibo.com"
    ∷ codes "weibo.cn"
    ∷ codes "sina.com.cn"
    ∷ codes "sinaimg.cn"
    ∷ codes "sinajs.cn"
    ∷ codes "weibo.com"
    ∷ codes "weixin.qq.com"
    ∷ codes "wechat.com"
    ∷ codes "wechatinc.com"
    ∷ codes "wx.qq.com"
    ∷ codes "zhihu.com"
    ∷ codes "zhimg.com"
    ∷ codes "douban.com"
    ∷ codes "doubanio.com"
    ∷ codes "xiaohongshu.com"
    ∷ codes "xhscdn.com"
    ∷ codes "tieba.baidu.com"
    ∷ codes "baidu.com"
    ∷ codes "bdstatic.com"
    ∷ codes "bdimg.com"
    ∷ codes "bcebos.com"
    ∷ codes "baidupcs.com"
    ∷ codes "iqiyi.com"
    ∷ codes "taobao.com"
    ∷ codes "tmall.com"
    ∷ codes "alicdn.com"
    ∷ codes "alibaba.com"
    ∷ codes "alibabacloud.com"
    ∷ codes "aliyuncs.com"
    ∷ codes "jd.com"
    ∷ codes "jdcdn.com"
    ∷ codes "360buyimg.com"
    ∷ codes "pinduoduo.com"
    ∷ codes "yangkeduo.com"
    ∷ codes "meituan.com"
    ∷ codes "dianping.com"
    ∷ codes "ele.me"
    ∷ codes "kaola.com"
    ∷ codes "suning.com"
    ∷ codes "alipay.com"
    ∷ codes "wechatpay.com"
    ∷ codes "unionpay.com"
    ∷ codes "12306.cn"
    ∷ codes "ctrip.com"
    ∷ codes "qunar.com"
    ∷ codes "amap.com"
    ∷ codes "autonavi.com"
    ∷ codes "baidu.com"
    ∷ codes "gmw.cn"
    ∷ codes "people.com.cn"
    ∷ codes "xinhuanet.com"
    ∷ codes "chinanews.com"
    ∷ codes "thepaper.cn"
    ∷ codes "ifeng.com"
    ∷ codes "eastmoney.com"
    ∷ codes "sinafinance.cn"
    ∷ codes "hexun.com"
    ∷ codes "xueqiu.com"
    ∷ codes "cs.com.cn"
    ∷ codes "10jqka.com.cn"
    ∷ codes "myqcloud.com"
    ∷ codes "qcloud.com"
    ∷ codes "chinacache.com"
    ∷ codes "cdngslb.com"
    ∷ codes "mihoyo.com"
    ∷ codes "hoyolab.com"
    ∷ codes "yuanshen.com"
    ∷ codes "bh3.com"
    ∷ codes "benghuai.com"
    ∷ codes "mhyurl.cn"
    ∷ codes "game.qq.com"
    ∷ codes "ieg.com"
    ∷ codes "wegame.com.cn"
    ∷ codes "dnf.qq.com"
    ∷ codes "lol.qq.com"
    ∷ codes "pvp.qq.com"
    ∷ codes "game.gtimg.cn"
    ∷ codes "dlied5.qq.com"
    ∷ codes "ossweb-img.qq.com"
    ∷ codes "sqimg.qq.com"
    ∷ codes "msdk.qq.com"
    ∷ codes "gcloud.qq.com"
    ∷ codes "tpns.tencent.com"
    ∷ codes "bugly.qq.com"
    ∷ codes "neteasegames.com"
    ∷ codes "163yun.com"
    ∷ codes "xyq.163.com"
    ∷ codes "mc.163.com"
    ∷ codes "my.163.com"
    ∷ codes "wanmei.com"
    ∷ codes "perfectworld.com.cn"
    ∷ codes "changyou.com"
    ∷ codes "cy.com"
    ∷ codes "shengqugames.com"
    ∷ codes "sdo.com"
    ∷ codes "biligame.com"
    ∷ codes "biligame.net"
    ∷ codes "4399.com"
    ∷ codes "7k7k.com"
    ∷ codes "9game.cn"
    ∷ codes "uc.cn"
    ∷ codes "kuaikanmanhua.com"
    ∷ codes "acfun.cn"
    ∷ codes "acfun.com"
    ∷ codes "douyu.com"
    ∷ codes "douyucdn.cn"
    ∷ codes "huya.com"
    ∷ codes "alipayobjects.com"
    ∷ codes "alipaydev.com"
    ∷ codes "antfin.com"
    ∷ (0xe8 ∷ 0x9a ∷ 0x82 ∷ 0xe8 ∷ 0x9a ∷ 0x81 ∷ 0x2e ∷ 0x63 ∷ 0x6f ∷ 0x6d ∷ [])
    ∷ codes "tenpay.com"
    ∷ codes "95516.com"
    ∷ codes "weixinbridge.com"
    ∷ codes "qlogo.cn"
    ∷ codes "qcloudimg.com"
    ∷ codes "qqmail.com"
    ∷ codes "foxmail.com"
    ∷ codes "cmbchina.com"
    ∷ codes "icbc.com.cn"
    ∷ codes "ccb.com"
    ∷ codes "abchina.com"
    ∷ codes "bankcomm.com"
    ∷ codes "boc.cn"
    ∷ []

pub record ServiceGroup : Type 0 where
  pub name : Bytes
  pub domains : List Bytes

abbrev honor_of_kings_group : ServiceGroup
honor_of_kings_group = record {
  name = codes "honor_of_kings";
  domains =
      codes "pvp.qq.com"
      ∷ codes "game.gtimg.cn"
      ∷ codes "dlied5.qq.com"
      ∷ codes "ossweb-img.qq.com"
      ∷ codes "sqimg.qq.com"
      ∷ codes "msdk.qq.com"
      ∷ codes "gcloud.qq.com"
      ∷ codes "tpns.tencent.com"
      ∷ codes "bugly.qq.com"
      ∷ [];
}

abbrev bilibili_group : ServiceGroup
bilibili_group = record {
  name = codes "bilibili";
  domains =
      codes "bilibili.com"
      ∷ codes "biliapi.com"
      ∷ codes "biliapi.net"
      ∷ codes "bilivideo.com"
      ∷ codes "bilivideo.cn"
      ∷ codes "bilicdn1.com"
      ∷ codes "bilicdn2.com"
      ∷ codes "hdslb.com"
      ∷ codes "b23.tv"
      ∷ codes "biligame.com"
      ∷ codes "acgvideo.com"
      ∷ codes "upos-hz-mirrorakam.akamaized.net"
      ∷ [];
}

abbrev baidu_group : ServiceGroup
baidu_group = record {
  name = codes "baidu";
  domains =
      codes "baidu.com"
      ∷ codes "www.baidu.com"
      ∷ codes "m.baidu.com"
      ∷ codes "map.baidu.com"
      ∷ codes "hao123.com"
      ∷ codes "bdstatic.com"
      ∷ codes "bdimg.com"
      ∷ codes "bcebos.com"
      ∷ codes "baidubce.com"
      ∷ codes "baiducontent.com"
      ∷ codes "baidupcs.com"
      ∷ [];
}

abbrev qq_wechat_group : ServiceGroup
qq_wechat_group = record {
  name = codes "qq_wechat";
  domains =
      codes "qq.com"
      ∷ codes "gtimg.com"
      ∷ codes "gtimg.cn"
      ∷ codes "qpic.cn"
      ∷ codes "qlogo.cn"
      ∷ codes "qzone.com"
      ∷ codes "qqmail.com"
      ∷ codes "foxmail.com"
      ∷ codes "tencent.com"
      ∷ codes "myqcloud.com"
      ∷ codes "qcloud.com"
      ∷ codes "qcloudimg.com"
      ∷ codes "weixin.qq.com"
      ∷ codes "weixin.com"
      ∷ codes "wechat.com"
      ∷ codes "wechatinc.com"
      ∷ codes "weixinbridge.com"
      ∷ codes "wechatpay.com"
      ∷ codes "tenpay.com"
      ∷ codes "wxapp.tc.qq.com"
      ∷ [];
}

abbrev alipay_alibaba_group : ServiceGroup
alipay_alibaba_group = record {
  name = codes "alipay_alibaba";
  domains =
      codes "alipay.com"
      ∷ codes "alipayobjects.com"
      ∷ codes "alipaydev.com"
      ∷ codes "antfin.com"
      ∷ codes "antgroup.com"
      ∷ codes "taobao.com"
      ∷ codes "tmall.com"
      ∷ codes "1688.com"
      ∷ codes "etao.com"
      ∷ codes "alicdn.com"
      ∷ codes "alibaba.com"
      ∷ codes "aliyun.com"
      ∷ codes "aliyuncs.com"
      ∷ codes "alibabacloud.com"
      ∷ codes "mmstat.com"
      ∷ codes "tanx.com"
      ∷ codes "kunlunaq.com"
      ∷ codes "kunlungr.com"
      ∷ [];
}

abbrev games_group : ServiceGroup
games_group = record {
  name = codes "games";
  domains =
      codes "mihoyo.com"
      ∷ codes "mhyurl.cn"
      ∷ codes "hoyolab.com"
      ∷ codes "yuanshen.com"
      ∷ codes "bh3.com"
      ∷ codes "benghuai.com"
      ∷ codes "game.qq.com"
      ∷ codes "ieg.com"
      ∷ codes "wegame.com.cn"
      ∷ codes "dnf.qq.com"
      ∷ codes "lol.qq.com"
      ∷ codes "pvp.qq.com"
      ∷ codes "neteasegames.com"
      ∷ codes "163yun.com"
      ∷ codes "xyq.163.com"
      ∷ codes "mc.163.com"
      ∷ codes "wanmei.com"
      ∷ codes "perfectworld.com.cn"
      ∷ codes "changyou.com"
      ∷ codes "cy.com"
      ∷ codes "shengqugames.com"
      ∷ codes "sdo.com"
      ∷ codes "biligame.com"
      ∷ codes "4399.com"
      ∷ codes "7k7k.com"
      ∷ codes "9game.cn"
      ∷ [];
}

abbrev video_music_group : ServiceGroup
video_music_group = record {
  name = codes "video_music";
  domains =
      codes "iqiyi.com"
      ∷ codes "iqiyipic.com"
      ∷ codes "qiyi.com"
      ∷ codes "71.am"
      ∷ codes "youku.com"
      ∷ codes "youkucdn.com"
      ∷ codes "tudou.com"
      ∷ codes "qqvideo.com"
      ∷ codes "mgtv.com"
      ∷ codes "hunantv.com"
      ∷ codes "music.163.com"
      ∷ codes "126.net"
      ∷ codes "qqmusic.com"
      ∷ codes "tencentmusic.com"
      ∷ codes "kugou.com"
      ∷ codes "kuwo.cn"
      ∷ codes "douyu.com"
      ∷ codes "douyucdn.cn"
      ∷ codes "huya.com"
      ∷ [];
}

abbrev social_group : ServiceGroup
social_group = record {
  name = codes "social";
  domains =
      codes "weibo.com"
      ∷ codes "weibo.cn"
      ∷ codes "sina.com.cn"
      ∷ codes "sinaimg.cn"
      ∷ codes "zhihu.com"
      ∷ codes "zhimg.com"
      ∷ codes "xiaohongshu.com"
      ∷ codes "xhscdn.com"
      ∷ codes "douyin.com"
      ∷ codes "douyincdn.com"
      ∷ codes "kuaishou.com"
      ∷ codes "kuaishoucdn.com"
      ∷ codes "douban.com"
      ∷ codes "doubanio.com"
      ∷ codes "acfun.cn"
      ∷ codes "acfun.com"
      ∷ [];
}

abbrev shopping_group : ServiceGroup
shopping_group = record {
  name = codes "shopping";
  domains =
      codes "jd.com"
      ∷ codes "jdcdn.com"
      ∷ codes "360buyimg.com"
      ∷ codes "pinduoduo.com"
      ∷ codes "yangkeduo.com"
      ∷ codes "meituan.com"
      ∷ codes "dianping.com"
      ∷ codes "ele.me"
      ∷ codes "kaola.com"
      ∷ codes "suning.com"
      ∷ [];
}

abbrev banking_group : ServiceGroup
banking_group = record {
  name = codes "banking";
  domains =
      codes "unionpay.com"
      ∷ codes "95516.com"
      ∷ codes "cmbchina.com"
      ∷ codes "icbc.com.cn"
      ∷ codes "ccb.com"
      ∷ codes "abchina.com"
      ∷ codes "bankcomm.com"
      ∷ codes "boc.cn"
      ∷ [];
}

abbrev travel_group : ServiceGroup
travel_group = record {
  name = codes "travel";
  domains = codes "12306.cn" ∷ codes "ctrip.com" ∷ codes "qunar.com" ∷ codes "fliggy.com" ∷ [];
}

abbrev maps_news_group : ServiceGroup
maps_news_group = record {
  name = codes "maps_news";
  domains =
      codes "amap.com"
      ∷ codes "autonavi.com"
      ∷ codes "people.com.cn"
      ∷ codes "xinhuanet.com"
      ∷ codes "chinanews.com"
      ∷ codes "thepaper.cn"
      ∷ codes "ifeng.com"
      ∷ [];
}

abbrev speedtest_cn_group : ServiceGroup
speedtest_cn_group = record {
  name = codes "speedtest_cn";
  domains =
      codes "speedtest.cn"
      ∷ codes "www.speedtest.cn"
      ∷ codes "m.speedtest.cn"
      ∷ codes "bm.speedtest.cn"
      ∷ codes "b.speedtest.cn"
      ∷ [];
}

unfoldable pub china_service_groups : List ServiceGroup
china_service_groups =
    honor_of_kings_group ∷ bilibili_group ∷ baidu_group ∷ qq_wechat_group ∷ alipay_alibaba_group
    ∷ games_group ∷ video_music_group ∷ social_group ∷ shopping_group ∷ banking_group ∷ travel_group
    ∷ maps_news_group ∷ speedtest_cn_group ∷ []
